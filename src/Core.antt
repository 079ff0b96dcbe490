-- ===== src/Core.antt =====
-- Package core: core/cipher.go, core/stream.go and core/packet.go. A text is the list of its bytes,
-- and strings.ToUpper is read on ASCII.
pub mod Kdf
pub mod Entries
pub mod Pick
pub mod Conns
pub mod Runs
use go_shadowsocks.Prelude.{
  ℕ, zero, ◌-◌, Bool, true, false, ◌&&◌, List, [], ◌∷◌, ◌++◌, map, Option, none, some, length,
  ascii, leb, ltb, ◌==◌, if◌then◌else◌,
}
use go_shadowsocks.Errors.{Err, key_size, cipher_not_supported, Result, ok, err, panic, map_result}
use go_shadowsocks.Socks.Text.{same_bytes}
use go_shadowsocks.ShadowAead.Cipher.{
  Cipher as AeadCipher, Crypto as AeadCrypto, meta_cipher, aesgcm, chacha20_poly1305,
}
use go_shadowsocks.ShadowStream.Cipher.{
  Cipher as StreamCipher, Crypto as StreamCrypto, aes_ctr, aes_cfb, chacha20, chacha20_ietf,
  xchacha20,
}
use go_shadowsocks.Core.Kdf.{kdf}

-- The implementations of the interface `Cipher`: `dummy`, `aeadCipher`, `streamCipher`.
pub data Cipher : Type 0 where
  dummy : Cipher
  aead_cipher : AeadCipher → Cipher
  stream_cipher : StreamCipher → Cipher

-- The cryptographic packages.
pub record Crypto : Type 0 where
  pub aead : AeadCrypto
  pub stream : StreamCrypto
  pub md5 : List ℕ → List ℕ

-- An entry of `aeadList` or `streamList`: the name, the key size, the constructor.
pub record Choice (C : Type 0) : Type 0 where
  pub name : List ℕ
  pub size : ℕ
  pub new : List ℕ → Result C

-- strings.ToUpper.
abbrev pub upper : ℕ → ℕ
upper c = if leb b'a' c && leb c b'z' then c - 32 else c

unfoldable pub to_upper : List ℕ → List ℕ
to_upper = map upper

-- The constants of the AEAD names.
abbrev pub aead_aes128_gcm : List ℕ
aead_aes128_gcm = ascii "AEAD_AES_128_GCM"

abbrev pub aead_aes192_gcm : List ℕ
aead_aes192_gcm = ascii "AEAD_AES_192_GCM"

abbrev pub aead_aes256_gcm : List ℕ
aead_aes256_gcm = ascii "AEAD_AES_256_GCM"

abbrev pub aead_chacha20_poly1305 : List ℕ
aead_chacha20_poly1305 = ascii "AEAD_CHACHA20_POLY1305"

module _ {C : Type 0} where
  -- `choice, ok := list[name]`.
  pub lookup : List ℕ → List (Choice C) → Option (Choice C)
  lookup name [] = none
  lookup name (c ∷ cs) = if same_bytes c.name name then some c else lookup name cs

  abbrev pub choice : List ℕ → ℕ → (List ℕ → Result C) → Choice C
  choice name size new = record { name = name; size = size; new = new }

  -- The body of `if choice, ok := …`, from the key on; `none` would be a `kdf` that does not return.
  abbrev pub with_key : Choice C → Option (List ℕ) → Result C
  with_key c none = panic
  with_key c (some key) = if length key == c.size then c.new key else err (key_size c.size)

  pub make : (List ℕ → List ℕ) → Choice C → List ℕ → List ℕ → Result C
  make md5 c key password =
      with_key c (if length key == 0 then kdf md5 password c.size else some key)

-- The cases of the `switch` that rename.
pub alias : List ℕ → List ℕ
alias name =
    if same_bytes name (ascii "CHACHA20-IETF-POLY1305")
    then aead_chacha20_poly1305
    else if same_bytes name (ascii "AES-128-GCM")
    then aead_aes128_gcm
    else if same_bytes name (ascii "AES-192-GCM")
    then aead_aes192_gcm
    else if same_bytes name (ascii "AES-256-GCM")
    then aead_aes256_gcm
    else name

-- sort.Strings.
pub before : List ℕ → List ℕ → Bool
before [] ys = true
before (x ∷ xs) [] = false
before (x ∷ xs) (y ∷ ys) = if x == y then before xs ys else ltb x y

pub insert : List ℕ → List (List ℕ) → List (List ℕ)
insert x [] = x ∷ []
insert x (y ∷ ys) = if before x y then x ∷ y ∷ ys else y ∷ insert x ys

pub sort_strings : List (List ℕ) → List (List ℕ)
sort_strings [] = []
sort_strings (x ∷ xs) = insert x (sort_strings xs)

module _ (c : Crypto) where
  abbrev pub gcm : List ℕ → Result AeadCipher
  gcm key = map_result (meta_cipher c.aead) (aesgcm c.aead key)

  abbrev pub chacha : List ℕ → Result AeadCipher
  chacha key = map_result (meta_cipher c.aead) (chacha20_poly1305 c.aead key)

  -- `aeadList` and `streamList`.
  pub aead_list : List (Choice AeadCipher)
  aead_list =
      choice aead_aes128_gcm 16 gcm
      ∷ choice aead_aes192_gcm 24 gcm
      ∷ choice aead_aes256_gcm 32 gcm
      ∷ choice aead_chacha20_poly1305 32 chacha
      ∷ []

  pub stream_list : List (Choice StreamCipher)
  stream_list =
      choice (ascii "AES-128-CTR") 16 (aes_ctr c.stream)
      ∷ choice (ascii "AES-192-CTR") 24 (aes_ctr c.stream)
      ∷ choice (ascii "AES-256-CTR") 32 (aes_ctr c.stream)
      ∷ choice (ascii "AES-128-CFB") 16 (aes_cfb c.stream)
      ∷ choice (ascii "AES-192-CFB") 24 (aes_cfb c.stream)
      ∷ choice (ascii "AES-256-CFB") 32 (aes_cfb c.stream)
      ∷ choice (ascii "CHACHA20") 32 (chacha20 c.stream)
      ∷ choice (ascii "CHACHA20-IETF") 32 (chacha20_ietf c.stream)
      ∷ choice (ascii "XCHACHA20") 32 (xchacha20 c.stream)
      ∷ []

  -- The lookups of `PickCipher`, on the name in the lists.
  pub pick_named : List ℕ → List ℕ → List ℕ → Result Cipher
  pick_named name key password = elim (lookup name aead_list) [
    | some a ↦ map_result aead_cipher (make c.md5 a key password)
    | none ↦ elim (lookup name stream_list) [
      | some s ↦ map_result stream_cipher (make c.md5 s key password)
      | none ↦ err cipher_not_supported
    ]
  ]

  -- `PickCipher(name, key, password)`.
  unfoldable pub pick_cipher : List ℕ → List ℕ → List ℕ → Result Cipher
  pick_cipher name key password =
      if same_bytes (to_upper name) (ascii "DUMMY")
      then ok dummy
      else pick_named (alias (to_upper name)) key password

  -- `ListCipher`; the order in which Go walks the maps does not matter.
  pub list_cipher : List (List ℕ)
  list_cipher = sort_strings (
      map (λ (a : Choice AeadCipher). a.name) aead_list
      ++ map (λ (s : Choice StreamCipher). s.name) stream_list)
