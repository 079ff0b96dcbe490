-- ===== src/Core/Kdf.antt =====
-- `kdf` of core/cipher.go. MD5 is a parameter; a digest that is not of 16 bytes does not occur.
use go_shadowsocks.Prelude.{
  ℕ, zero, suc, ◌+◌, ◌-◌, ◌*◌, ◌≤◌, ◌≡◌, refl, List, [], ◌++◌, Option, none, some, length, take,
  drop, append-nil, append_assoc, length-append, length-take, drop-append, take-append_le, ltb,
  if◌then◌else◌, arith,
}
use native.Mathlib.Decide.{dec_lt}

-- `h.Size()` of MD5.
abbrev pub md5_size : ℕ
md5_size = 16

module _ (md5 : List ℕ → List ℕ) where
  -- The loop: `b`, the digests so far, and `prev`, the last of them. `none`: the fuel ran out.
  pub kdf_loop : List ℕ → ℕ → ℕ → List ℕ → List ℕ → Option (List ℕ)
  kdf_loop password key_len zero b prev = none
  kdf_loop password key_len (suc fuel) b prev =
      let b' = b ++ md5 (prev ++ password) in
      let again = kdf_loop password key_len fuel b' (drop (length b' - md5_size) b') in
      if ltb (length b) key_len then again else some (take key_len b)

  unfoldable pub kdf : List ℕ → ℕ → Option (List ℕ)
  unfolding kdf_loop
  kdf password key_len = kdf_loop password key_len (suc key_len) [] []

  -- The stream of keys that the scheme defines: each digest is that of the one before and the
  -- password.
  unfoldable pub digests : List ℕ → ℕ → List ℕ → List ℕ
  digests password zero prev = []
  digests password (suc n) prev =
      md5 (prev ++ password) ++ digests password n (md5 (prev ++ password))

  module _ (sized : (m : List ℕ) → length (md5 m) ≡ 16) where
    length-digests :
        (password : List ℕ) (n : ℕ) (prev : List ℕ) → length (digests password n prev) ≡ n * 16
    unfolding digests
    length-digests password zero prev = refl
    length-digests password (suc n) prev =
        let d = md5 (prev ++ password) in
        omega (
          arith,
          sized (prev ++ password),
          length-append d (digests password n d),
          length-digests password n d,
        )

    last_digest : (b d : List ℕ) → length d ≡ 16 → drop (length (b ++ d) - 16) (b ++ d) ≡ d
    last_digest b d h = drop-append b d _ (omega (arith, length-append b d))

    -- With enough digests ahead, the loop returns the front of what it holds and of them.
    kdf_loop_takes :
        (password : List ℕ) (key_len fuel : ℕ) (b prev : List ℕ)
        → key_len ≤ length b + fuel * 16
        → kdf_loop password key_len (suc fuel) b prev
          ≡ some (take key_len (b ++ digests password fuel prev))
    unfolding kdf_loop digests
    kdf_loop_takes password key_len zero b prev h = ground (arith, append-nil b)
    kdf_loop_takes password key_len (suc fuel) b prev h = elim (dec_lt (length b) key_len) [
      | yes lt ↦
          let d = md5 (prev ++ password) in
          ground (
            arith,
            sized (prev ++ password),
            length-append b d,
            last_digest b d (sized (prev ++ password)),
            append_assoc b d (digests password fuel d),
            kdf_loop_takes password key_len fuel (b ++ d) d,
          )
      | no ge ↦ ground (arith, take-append_le b (digests password (suc fuel) prev) key_len)
    ]

    -- `kdf` always returns, and the key is the front of the stream of digests.
    pub kdf-digests :
        (password : List ℕ) (key_len : ℕ)
        → (kdf password key_len ≡ some (take key_len (digests password key_len [])))
          × (length (take key_len (digests password key_len [])) ≡ key_len)
    unfolding kdf
    kdf-digests password key_len = (
      kdf_loop_takes password key_len key_len [] [] (omega arith),
      omega (
        arith,
        length-take key_len (digests password key_len []),
        length-digests password key_len [],
      ),
    )
