-- ===== src/ShadowAead/Aead.antt =====
-- The contract of Go's cipher.AEAD, with no additional data, as package shadowaead uses it.
use go_shadowsocks.Prelude.{
  ℕ, ◌+◌, ◌≡◌, List, [], ◌∷◌, Option, none, some, length, ◌==◌, if◌then◌else◌, arith,
}

-- `seal nonce plaintext` and `unseal nonce ciphertext` (Open); `none` is a failed authentication.
pub record Aead : Type 0 where
  pub overhead : ℕ
  pub nonce_size : ℕ
  pub seal : List ℕ → List ℕ → List ℕ
  pub unseal : List ℕ → List ℕ → Option (List ℕ)

-- What the documentation of cipher.AEAD promises. Nothing here says that a forgery is refused.
pub record IsAead (a : Aead) : Type 0 where
  pub seal_length : (n p : List ℕ) → length (a.seal n p) ≡ length p + a.overhead
  pub unseal_seal : (n p : List ℕ) → a.unseal n (a.seal n p) ≡ some p
  pub unseal_length : (n c p : List ℕ) → a.unseal n c ≡ some p → length c ≡ length p + a.overhead

-- An instance for the tests: a tag of one byte that depends on the nonce, in front of the text.
abbrev pub tag_of : List ℕ → ℕ
tag_of [] = 7
tag_of (b ∷ bs) = b

abbrev pub toy_unseal : List ℕ → List ℕ → Option (List ℕ)
toy_unseal n [] = none
toy_unseal n (t ∷ p) = if t == tag_of n then some p else none

abbrev pub toy_aead : Aead
toy_aead = record { overhead = 1; nonce_size = 2; seal = λ n p. tag_of n ∷ p; unseal = toy_unseal }

toy_unseal-length : (n c p : List ℕ) → toy_unseal n c ≡ some p → length c ≡ length p + 1
toy_unseal-length n [] p e = absurd (ground arith)
toy_unseal-length n (t ∷ c) p e = ground arith

pub toy_aead-IsAead : IsAead toy_aead
toy_aead-IsAead = record {
  seal_length = λ n p. omega arith;
  unseal_seal = λ n p. ground arith;
  unseal_length = toy_unseal-length;
}
