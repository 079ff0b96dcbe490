-- ===== src/Core/Entries.antt =====
-- The entries of `aeadList` and `streamList` of core/cipher.go: each constructor accepts every key of
-- the size beside it.
use go_shadowsocks.Prelude.{
  subst, take, ℕ, ◌≡◌, ◌≢◌, refl, ap, Bool-cases, List, [], ◌∷◌, some, length, All, ◌⊎◌, inl, inr,
  arith,
}
use native.Mathlib.Decide.{ℕ_discrete}
use go_shadowsocks.Errors.{key_size, ok, err, map_result}
use go_shadowsocks.ShadowAead.Cipher.{is_aes_key, new_aes, IsCrypto as IsAeadCrypto, meta_cipher}
use go_shadowsocks.ShadowAead.Cipher.Keys.{IsCipher as IsAeadCipher, aesgcm_keys, chacha_keys}
use go_shadowsocks.ShadowStream.Cipher.{
  ctr_stream, cfb_stream, chacha_stream, with_chacha_key, aes_ctr, aes_cfb, chacha20, chacha20_ietf,
  xchacha20,
}
use go_shadowsocks.ShadowStream.Cipher.Laws.{IsCipher as IsStreamCipher}
use go_shadowsocks.ShadowStream.Cipher.Keys.{
  ctr-IsCipher, cfb-IsCipher, IsCrypto as IsStreamCrypto, chacha_stream_keys,
}
use go_shadowsocks.Socks.Text.{same_bytes}
use go_shadowsocks.Core.Kdf.{kdf-digests, digests}
use go_shadowsocks.Core.{
  Cipher, dummy, aead_cipher, stream_cipher, Crypto, Choice, lookup, choice, make, gcm, chacha,
  aead_list, stream_list,
}

-- What the packages promise.
pub record IsCrypto (c : Crypto) : Type 0 where
  pub aead_laws : IsAeadCrypto c.aead
  pub stream_laws : IsStreamCrypto c.stream
  pub sized : (m : List ℕ) → length (c.md5 m) ≡ 16

-- The two directions of a cipher match.
abbrev pub Lawful : Cipher → Type 0
Lawful dummy = Unit {0}
Lawful (aead_cipher a) = IsAeadCipher a
Lawful (stream_cipher s) = IsStreamCipher s

module _ {C : Type 0} (P : C → Type 0) where
  -- A constructor that accepts every key of the size beside it.
  abbrev pub Sound : Choice C → Type 0
  Sound ch = (key : List ℕ) → length key ≡ ch.size → (x : C) × (ch.new key ≡ ok x) × P x

  pub lookup-All :
      (name : List ℕ) (cs : List (Choice C)) (ch : Choice C)
      → All Sound cs
      → lookup name cs ≡ some ch
      → Sound ch
  unfolding lookup
  lookup-All name [] ch h e = ground arith
  lookup-All name (c ∷ cs) ch h e = elim (Bool-cases (same_bytes c.name name)) [
    | inl same ↦ subst Sound {x = c} {y = ch} (ground (arith, same)) h.0
    | inr other ↦ lookup-All name cs ch h.1 (ground (arith, other))
  ]

  -- The key, derived from the password where none was given, has the size of the entry, or is refused.
  pub make-Sound :
      (md5 : List ℕ → List ℕ)
      → ((m : List ℕ) → length (md5 m) ≡ 16)
      → (ch : Choice C) (key password : List ℕ) → Sound ch
      → ((x : C) × (make md5 ch key password ≡ ok x) × P x)
        ⊎ ((length key ≢ 0)
            × (length key ≢ ch.size)
            × (make md5 ch key password ≡ err (key_size ch.size)))
  unfolding make
  make-Sound md5 sized ch key password h = elim (ℕ_discrete (length key) 0) [
    | yes e ↦
        let derived = take ch.size (digests md5 password ch.size []) in
        let (returns, size) = kdf-digests md5 sized password ch.size in
        let (x, made, holds) = h derived size in
        inl (x, ground (arith, e, returns, size, made), holds)
    | no ne ↦ elim (ℕ_discrete (length key) ch.size) [
      | yes size ↦
          let (x, made, holds) = h key size in inl (x, ground (arith, ne, size, made), holds)
      | no other ↦ inr (ne, other, ground (arith, ne, other))
    ]
  ]

module _ (c : Crypto) (laws : IsCrypto c) where
  gcm-Sound :
      (n : ℕ) (name : List ℕ)
      → (n ≡ 16) ⊎ (n ≡ 24) ⊎ (n ≡ 32)
      → Sound IsAeadCipher (choice name n (gcm c))
  gcm-Sound n name size key h = elim (aesgcm_keys c.aead laws.aead_laws key) [
    | inl (good, (m, made, salt, lawful)) ↦ (meta_cipher c.aead m, ap (map_result _) made, lawful)
    | inr (no16, no24, no32, refused) ↦ absurd (ground (arith, size, h, no16, no24, no32))
  ]

  chacha-Sound : (name : List ℕ) → Sound IsAeadCipher (choice name 32 (chacha c))
  chacha-Sound name key h = elim (chacha_keys c.aead laws.aead_laws key) [
    | inl (good, (m, made, salt, lawful)) ↦ (meta_cipher c.aead m, ap (map_result _) made, lawful)
    | inr (other, refused) ↦ absurd (other h)
  ]

  pub aead_list-Sound : All (Sound IsAeadCipher) (aead_list c)
  unfolding aead_list
  aead_list-Sound = (
    gcm-Sound 16 [] (inl refl),
    (gcm-Sound 24 [] (inr (inl refl)), (gcm-Sound 32 [] (inr (inr refl)), (chacha-Sound [], tt))),
  )

  ctr-Sound :
      (n : ℕ) (name : List ℕ)
      → (n ≡ 16) ⊎ (n ≡ 24) ⊎ (n ≡ 32)
      → Sound IsStreamCipher (choice name n (aes_ctr c.stream))
  unfolding aes_ctr new_aes is_aes_key
  ctr-Sound n name size key h =
      (ctr_stream c.stream key, ground (arith, h, size), ctr-IsCipher c.stream laws.stream_laws key)

  cfb-Sound :
      (n : ℕ) (name : List ℕ)
      → (n ≡ 16) ⊎ (n ≡ 24) ⊎ (n ≡ 32)
      → Sound IsStreamCipher (choice name n (aes_cfb c.stream))
  unfolding aes_cfb new_aes is_aes_key
  cfb-Sound n name size key h =
      (cfb_stream c.stream key, ground (arith, h, size), cfb-IsCipher c.stream laws.stream_laws key)

  chacha20-Sound :
      (nonce : ℕ) (name : List ℕ)
      → (nonce ≡ 8) ⊎ (nonce ≡ 12) ⊎ (nonce ≡ 24)
      → Sound IsStreamCipher (choice name 32 (with_chacha_key c.stream nonce))
  chacha20-Sound nonce name size key h =
      elim (chacha_stream_keys c.stream laws.stream_laws nonce key size) [
        | inl (good, made, lawful) ↦ (chacha_stream c.stream nonce key, made, lawful)
        | inr (other, refused) ↦ absurd (other h)
      ]

  pub stream_list-Sound : All (Sound IsStreamCipher) (stream_list c)
  unfolding stream_list chacha20 chacha20_ietf xchacha20
  stream_list-Sound = (
    ctr-Sound 16 [] (inl refl),
    (
      ctr-Sound 24 [] (inr (inl refl)),
      (
        ctr-Sound 32 [] (inr (inr refl)),
        (
          cfb-Sound 16 [] (inl refl),
          (
            cfb-Sound 24 [] (inr (inl refl)),
            (
              cfb-Sound 32 [] (inr (inr refl)),
              (
                chacha20-Sound 8 [] (inl refl),
                (
                  chacha20-Sound 12 [] (inr (inl refl)),
                  (chacha20-Sound 24 [] (inr (inr refl)), tt),
                ),
              ),
            ),
          ),
        ),
      ),
    ),
  )
