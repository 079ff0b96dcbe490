-- ===== src/ShadowStream/Cipher/Keys.antt =====
-- Which keys the constructors of shadowstream/cipher.go accept.
use go_shadowsocks.Prelude.{ℕ, ◌≡◌, ◌≢◌, refl, List, length, ◌⊎◌, inl, inr, arith}
use native.Mathlib.Decide.{ℕ_discrete}
use go_shadowsocks.Errors.{key_size, ok, err, map_result}
use go_shadowsocks.ShadowStream.Cipher.{
  Crypto, fresh, must, ctr_stream, cfb_stream, chacha_encrypter, chacha_stream, with_chacha_key,
}
use go_shadowsocks.ShadowStream.Cipher.Laws.{Undoes, IsCipher}

-- What the packages promise: CTR and ChaCha20 undo themselves, the CFB decrypter undoes the CFB
-- encrypter, and chacha20.NewCipher takes keys of 32 bytes with nonces of 8, 12 and 24 bytes.
pub record IsCrypto (c : Crypto) : Type 0 where
  pub ctr_laws : (k iv : List ℕ) → Undoes (c.ctr k iv) (c.ctr k iv)
  pub cfb_laws : (k iv : List ℕ) → Undoes (c.cfb_decrypter k iv) (c.cfb_encrypter k iv)
  pub chacha_step : List ℕ → List ℕ → List ℕ → ℕ → ℕ
  pub chacha_made :
      (iv k : List ℕ)
      → length k ≡ 32
      → (length iv ≡ 8) ⊎ (length iv ≡ 12) ⊎ (length iv ≡ 24)
      → c.new_chacha iv k ≡ ok (chacha_step iv k)
  pub chacha_laws : (iv k : List ℕ) → Undoes (chacha_step iv k) (chacha_step iv k)

module _ (c : Crypto) (laws : IsCrypto c) where
  pub ctr-IsCipher : (k : List ℕ) → IsCipher (ctr_stream c k)
  unfolding ctr_stream
  ctr-IsCipher k = record {
    enc = c.ctr k;
    dec = c.ctr k;
    encrypts = λ iv e. refl;
    decrypts = λ iv e. refl;
    undoes = laws.ctr_laws k;
  }

  pub cfb-IsCipher : (k : List ℕ) → IsCipher (cfb_stream c k)
  unfolding cfb_stream
  cfb-IsCipher k = record {
    enc = c.cfb_encrypter k;
    dec = c.cfb_decrypter k;
    encrypts = λ iv e. refl;
    decrypts = λ iv e. refl;
    undoes = laws.cfb_laws k;
  }

  chacha-IsCipher :
      (n : ℕ) (k : List ℕ)
      → length k ≡ 32
      → (n ≡ 8) ⊎ (n ≡ 12) ⊎ (n ≡ 24)
      → IsCipher (chacha_stream c n k)
  unfolding chacha_stream chacha_encrypter
  chacha-IsCipher n k h size =
      let made : (iv : List ℕ)
          → length iv ≡ n
          → map_result fresh (must (c.new_chacha iv k)) ≡ ok (fresh (laws.chacha_step iv k)) =
        λ iv e. rw (laws.chacha_made iv k h (rw e size)) in
      record {
        enc = λ iv. laws.chacha_step iv k;
        dec = λ iv. laws.chacha_step iv k;
        encrypts = made;
        decrypts = made;
        undoes = λ iv. laws.chacha_laws iv k;
      }

  -- The constructors of the ChaCha20 variants accept exactly the keys of 32 bytes; what they return
  -- never panics on an IV of its size, and decrypts what it encrypts.
  pub chacha_stream_keys :
      (n : ℕ) (key : List ℕ)
      → (n ≡ 8) ⊎ (n ≡ 12) ⊎ (n ≡ 24)
      → ((length key ≡ 32)
          × (with_chacha_key c n key ≡ ok (chacha_stream c n key))
          × IsCipher (chacha_stream c n key))
        ⊎ ((length key ≢ 32) × (with_chacha_key c n key ≡ err (key_size 32)))
  chacha_stream_keys n key size = elim (ℕ_discrete (length key) 32) [
    | yes e ↦ inl (e, ground (arith, e), chacha-IsCipher n key e size)
    | no ne ↦ inr (ne, ground (arith, ne))
  ]
