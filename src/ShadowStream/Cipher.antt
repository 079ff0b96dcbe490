-- ===== src/ShadowStream/Cipher.antt =====
-- shadowstream/cipher.go. A cipher.Stream turns each byte into another by the bytes before it; the
-- block modes and ChaCha20 are parameters, aes.NewCipher is modelled by its check of the key size.
pub mod Laws
pub mod Keys
use go_shadowsocks.Prelude.{
  ℕ, Bool, List, [], ◌∷◌, ◌++◌, Option, none, some, length, ◌==◌, if◌then◌else◌,
}
use go_shadowsocks.Errors.{Err, key_size, Result, ok, err, panic, map_result}
use go_shadowsocks.ShadowAead.Cipher.{new_aes}

-- A cipher.Stream: the function from the bytes so far and the next byte to the byte that comes out,
-- and the bytes so far.
pub record Keyed : Type 0 where
  pub step : List ℕ → ℕ → ℕ
  pub seen : List ℕ

-- `XORKeyStream` of a function `f`, behind the bytes `seen`.
pub xor_from : (List ℕ → ℕ → ℕ) → List ℕ → List ℕ → List ℕ
xor_from f seen [] = []
xor_from f seen (b ∷ bs) = f seen b ∷ xor_from f (seen ++ b ∷ []) bs

abbrev pub xor_key_stream : Keyed → List ℕ → List ℕ × Keyed
xor_key_stream k bs = (xor_from k.step k.seen bs, record k { seen = k.seen ++ bs })

abbrev pub fresh : (List ℕ → ℕ → ℕ) → Keyed
fresh f = record { step = f; seen = [] }

-- The interface `Cipher`: what `Encrypter(iv)` and `Decrypter(iv)` return, or that they panic.
pub record Cipher : Type 0 where
  pub iv_size : ℕ
  pub encrypter : List ℕ → Result Keyed
  pub decrypter : List ℕ → Result Keyed

-- The cryptographic packages: the modes by key and IV, and chacha20.NewCipher(iv, key).
pub record Crypto : Type 0 where
  pub ctr : List ℕ → List ℕ → List ℕ → ℕ → ℕ
  pub cfb_encrypter : List ℕ → List ℕ → List ℕ → ℕ → ℕ
  pub cfb_decrypter : List ℕ → List ℕ → List ℕ → ℕ → ℕ
  pub new_chacha : List ℕ → List ℕ → Result (List ℕ → ℕ → ℕ)

-- aes.BlockSize, and chacha's KeySize, NonceSize, INonceSize and XNonceSize.
abbrev pub aes_block_size : ℕ
aes_block_size = 16

abbrev pub chacha_key_size : ℕ
chacha_key_size = 32

abbrev pub chacha_nonce_size : ℕ
chacha_nonce_size = 8

abbrev pub chacha_ietf_nonce_size : ℕ
chacha_ietf_nonce_size = 12

abbrev pub chacha_x_nonce_size : ℕ
chacha_x_nonce_size = 24

-- `if err != nil { panic(err) }`.
abbrev pub must : {A : Type 0} → Result A → Result A
must (ok a) = ok a
must (err e) = panic
must panic = panic

module _ (c : Crypto) where
  -- `ctrStream` and `cfbStream`, over a block that is represented by its key.
  pub ctr_stream : List ℕ → Cipher
  ctr_stream blk = record {
    iv_size = aes_block_size;
    encrypter = λ iv. ok (fresh (c.ctr blk iv));
    decrypter = λ iv. ok (fresh (c.ctr blk iv));
  }

  pub cfb_stream : List ℕ → Cipher
  cfb_stream blk = record {
    iv_size = aes_block_size;
    encrypter = λ iv. ok (fresh (c.cfb_encrypter blk iv));
    decrypter = λ iv. ok (fresh (c.cfb_decrypter blk iv));
  }

  -- `AESCTR(key)` and `AESCFB(key)`.
  unfoldable pub aes_ctr : List ℕ → Result Cipher
  aes_ctr key = map_result ctr_stream (new_aes key)

  unfoldable pub aes_cfb : List ℕ → Result Cipher
  aes_cfb key = map_result cfb_stream (new_aes key)

  -- `chacha20key`, `chacha20ietfkey` and `xchacha20key` differ by the size of the IV only.
  pub chacha_encrypter : List ℕ → List ℕ → Result Keyed
  chacha_encrypter k iv = map_result fresh (must (c.new_chacha iv k))

  pub chacha_stream : ℕ → List ℕ → Cipher
  chacha_stream nonce_size k = record {
    iv_size = nonce_size;
    encrypter = chacha_encrypter k;
    decrypter = chacha_encrypter k;
  }

  abbrev pub with_chacha_key : ℕ → List ℕ → Result Cipher
  with_chacha_key nonce_size key =
      if length key == chacha_key_size
      then ok (chacha_stream nonce_size key)
      else err (key_size chacha_key_size)

  -- `Chacha20(key)`, `Chacha20IETF(key)` and `Xchacha20(key)`.
  unfoldable pub chacha20 : List ℕ → Result Cipher
  chacha20 key = with_chacha_key chacha_nonce_size key

  unfoldable pub chacha20_ietf : List ℕ → Result Cipher
  chacha20_ietf key = with_chacha_key chacha_ietf_nonce_size key

  unfoldable pub xchacha20 : List ℕ → Result Cipher
  xchacha20 key = with_chacha_key chacha_x_nonce_size key
