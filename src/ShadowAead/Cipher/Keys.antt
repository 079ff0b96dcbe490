-- ===== src/ShadowAead/Cipher/Keys.antt =====
-- Which keys the constructors of shadowaead/cipher.go accept, and that both directions agree.
use go_shadowsocks.Prelude.{
  ℕ, ◌≡◌, ◌≢◌, ◌∙◌, refl, Bool-cases, ◌⊎◌, inl, inr, true, List, length, arith,
}
use native.Mathlib.Decide.{ℕ_discrete}
use go_shadowsocks.Errors.{key_size, aes_key_size, Result, ok, err, panic}
use go_shadowsocks.ShadowAead.Aead.{Aead, IsAead}
use go_shadowsocks.ShadowAead.Cipher.{
  Cipher, Crypto, IsCrypto, MetaCipher, is_aes_key, new_aes, then_gcm, meta_key_size,
  meta_salt_size, meta_encrypter, meta_decrypter, meta_cipher, aes_gcm, aesgcm, chacha20_poly1305,
}

-- A cipher whose two directions make the same AEAD from a salt, one that keeps its contract.
pub record IsCipher (c : Cipher) : Type 0 where
  pub agrees : (salt : List ℕ) → c.encrypter salt ≡ c.decrypter salt
  pub lawful : (salt : List ℕ) (a : Aead) → c.encrypter salt ≡ ok a → IsAead a

aes_key_sizes : (l : ℕ) → is_aes_key l ≡ true → (l ≡ 16) ⊎ (l ≡ 24) ⊎ (l ≡ 32)
unfolding is_aes_key
aes_key_sizes l e = ground arith

module _ (c : Crypto) (laws : IsCrypto c) where
  then_gcm-IsAead : (r : Result (List ℕ)) (a : Aead) → then_gcm c r ≡ ok a → IsAead a
  then_gcm-IsAead (ok k) a e = laws.gcm_laws k a e
  then_gcm-IsAead (err x) a e = cc
  then_gcm-IsAead panic a e = cc

  meta-IsCipher :
      (m : MetaCipher)
      → ((k : List ℕ) (a : Aead) → m.make_aead k ≡ ok a → IsAead a)
      → IsCipher (meta_cipher c m)
  unfolding meta_cipher meta_encrypter meta_decrypter
  meta-IsCipher m h = record { agrees = λ salt. refl; lawful = λ salt a e. h _ a e }

  salt :
      (psk : List ℕ) (make : List ℕ → Result Aead)
      → (length psk ≡ 16) ⊎ (length psk ≡ 24) ⊎ (length psk ≡ 32)
      → (meta_cipher c (record { psk = psk; make_aead = make })).salt_len ≡ length psk
  unfolding meta_cipher meta_salt_size meta_key_size
  salt psk make h = ground arith

  -- `AESGCM` returns a cipher for exactly the keys of 16, 24 and 32 bytes, with salts as long as the
  -- key, and the AES key size error for any other key.
  pub aesgcm_keys :
      (psk : List ℕ)
      → (((length psk ≡ 16) ⊎ (length psk ≡ 24) ⊎ (length psk ≡ 32))
          × ((m : MetaCipher) × (aesgcm c psk ≡ ok m)
              × ((meta_cipher c m).salt_len ≡ length psk)
              × IsCipher (meta_cipher c m)))
        ⊎ ((length psk ≢ 16)
            × (length psk ≢ 24)
            × (length psk ≢ 32)
            × (aesgcm c psk ≡ err (aes_key_size (length psk))))
  aesgcm_keys psk = elim (Bool-cases (is_aes_key (length psk))) [
    | inl e ↦ inl (
      aes_key_sizes _ e,
      (
        record { psk = psk; make_aead = aes_gcm c },
        unfold aesgcm in ground (arith, e),
        salt psk (aes_gcm c) (aes_key_sizes _ e),
        meta-IsCipher _ (λ k a. unfold aes_gcm in then_gcm-IsAead (new_aes k) a),
      ),
    )
    | inr e ↦ inr (unfold aesgcm is_aes_key in ground (arith, e))
  ]

  -- `Chacha20Poly1305` returns a cipher for exactly the keys of 32 bytes, with salts of 32 bytes, and
  -- the key size error for any other key.
  pub chacha_keys :
      (psk : List ℕ)
      → ((length psk ≡ 32)
          × ((m : MetaCipher) × (chacha20_poly1305 c psk ≡ ok m)
              × ((meta_cipher c m).salt_len ≡ 32)
              × IsCipher (meta_cipher c m)))
        ⊎ ((length psk ≢ 32) × (chacha20_poly1305 c psk ≡ err (key_size 32)))
  chacha_keys psk = elim (ℕ_discrete (length psk) 32) [
    | yes e ↦ inl (
      e,
      (
        record { psk = psk; make_aead = c.new_chacha },
        unfold chacha20_poly1305 in ground (arith, e),
        salt psk c.new_chacha (inr (inr e)) ∙ e,
        meta-IsCipher _ laws.chacha_laws,
      ),
    )
    | no ne ↦ inr (ne, unfold chacha20_poly1305 in ground (arith, ne))
  ]
