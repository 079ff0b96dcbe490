-- ===== src/ShadowAead/Cipher.antt =====
-- shadowaead/cipher.go: the ciphers with a pre-shared key. HKDF-SHA1, GCM and ChaCha20-Poly1305 are
-- parameters; aes.NewCipher is modelled by its documented check of the key size.
pub mod Keys
use go_shadowsocks.Prelude.{
  ℕ, ◌+◌, ◌≡◌, Bool, true, false, ◌||◌, List, [], ◌∷◌, length, ltb, ◌==◌, if◌then◌else◌,
}
use go_shadowsocks.Errors.{Err, key_size, aes_key_size, Result, ok, err, panic}
use go_shadowsocks.ShadowAead.Aead.{Aead, IsAead}

-- The interface `Cipher`.
pub record Cipher : Type 0 where
  pub key_len : ℕ
  pub salt_len : ℕ
  pub encrypter : List ℕ → Result Aead
  pub decrypter : List ℕ → Result Aead

-- The cryptographic packages. `hkdf secret salt info n` are the first n bytes of the HKDF reader.
pub record Crypto : Type 0 where
  pub hkdf : List ℕ → List ℕ → List ℕ → ℕ → List ℕ
  pub new_gcm : List ℕ → Result Aead
  pub new_chacha : List ℕ → Result Aead

-- What package shadowaead relies on: the constructors return AEADs that keep their contract.
pub record IsCrypto (c : Crypto) : Type 0 where
  pub gcm_laws : (k : List ℕ) (a : Aead) → c.new_gcm k ≡ ok a → IsAead a
  pub chacha_laws : (k : List ℕ) (a : Aead) → c.new_chacha k ≡ ok a → IsAead a

-- `metaCipher`.
pub record MetaCipher : Type 0 where
  pub psk : List ℕ
  pub make_aead : List ℕ → Result Aead

-- []byte("ss-subkey")
abbrev pub ss_subkey : List ℕ
ss_subkey = b's' ∷ b's' ∷ b'-' ∷ b's' ∷ b'u' ∷ b'b' ∷ b'k' ∷ b'e' ∷ b'y' ∷ []

unfoldable pub is_aes_key : ℕ → Bool
is_aes_key l = l == 16 || l == 24 || l == 32

-- aes.NewCipher; the block is represented by its key.
unfoldable pub new_aes : List ℕ → Result (List ℕ)
new_aes key = if is_aes_key (length key) then ok key else err (aes_key_size (length key))

abbrev pub then_gcm : Crypto → Result (List ℕ) → Result Aead
then_gcm c (ok blk) = c.new_gcm blk
then_gcm c (err e) = err e
then_gcm c panic = panic

-- `chacha20poly1305.KeySize`
abbrev pub chacha_key_size : ℕ
chacha_key_size = 32

module _ (c : Crypto) where
  -- `KeySize` and `SaltSize`.
  unfoldable pub meta_key_size : MetaCipher → ℕ
  meta_key_size m = length m.psk

  unfoldable pub meta_salt_size : MetaCipher → ℕ
  meta_salt_size m = let ks = meta_key_size m in if ltb 16 ks then ks else 16

  unfoldable pub meta_encrypter : MetaCipher → List ℕ → Result Aead
  meta_encrypter m salt = m.make_aead (c.hkdf m.psk salt ss_subkey (meta_key_size m))

  pub meta_decrypter : MetaCipher → List ℕ → Result Aead
  meta_decrypter m salt = m.make_aead (c.hkdf m.psk salt ss_subkey (meta_key_size m))

  unfoldable pub meta_cipher : MetaCipher → Cipher
  meta_cipher m = record {
    key_len = meta_key_size m;
    salt_len = meta_salt_size m;
    encrypter = meta_encrypter m;
    decrypter = meta_decrypter m;
  }

  unfoldable pub aes_gcm : List ℕ → Result Aead
  aes_gcm key = then_gcm c (new_aes key)

  -- `AESGCM(psk)` and `Chacha20Poly1305(psk)`.
  unfoldable pub aesgcm : List ℕ → Result MetaCipher
  aesgcm psk =
      if is_aes_key (length psk)
      then ok (record { psk = psk; make_aead = aes_gcm })
      else err (aes_key_size (length psk))

  pub chacha20_poly1305 : List ℕ → Result MetaCipher
  chacha20_poly1305 psk =
      if length psk == chacha_key_size
      then ok (record { psk = psk; make_aead = c.new_chacha })
      else err (key_size chacha_key_size)
