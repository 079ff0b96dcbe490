-- ===== src/ShadowAead/Nonce/Counter.antt =====
-- The nonce as a little-endian number, and why a session never repeats one.
use go_shadowsocks.Prelude.{
  ℕ, zero, suc, ◌+◌, ◌*◌, ◌%◌, ◌^◌, ◌<◌, ◌≡◌, ◌≢◌, refl, List, [], ◌∷◌, length, IsBytes, arith, ap,
  sym, ◌∙◌, ◌⊎◌, inl, inr, replicate, length-replicate,
}
use native.Mathlib.Nat.{pow-suc, mod-eq_of_lt, mod_self}
use go_shadowsocks.ShadowAead.Nonce.{increment}

-- The number that a little-endian byte string stands for.
abbrev pub le_value : List ℕ → ℕ
le_value [] = 0
le_value (b ∷ bs) = b + 256 * le_value bs

-- The nonce after k operations.
abbrev pub advance : ℕ → List ℕ → List ℕ
advance zero n = n
advance (suc k) n = advance k (increment n)

pub length-increment : (n : List ℕ) → length (increment n) ≡ length n
unfolding increment
length-increment [] = refl
length-increment (b ∷ bs) = ground (arith, length-increment bs)

pub increment-IsBytes : (n : List ℕ) → IsBytes n → IsBytes (increment n)
unfolding increment
increment-IsBytes [] h = tt
increment-IsBytes (b ∷ bs) h = ground (arith, increment-IsBytes bs h.1)

pub le_value_lt : (n : List ℕ) → IsBytes n → le_value n < 256 ^ length n
le_value_lt [] h = omega arith
le_value_lt (b ∷ bs) h = rw pow-suc (omega (arith, le_value_lt bs h.1))

-- The increment adds one, or wraps from the greatest nonce to 0.
increment_cases :
    (n : List ℕ)
    → IsBytes n
    → ((le_value (increment n) ≡ le_value n + 1) × (le_value n + 1 < 256 ^ length n))
      ⊎ ((le_value n + 1 ≡ 256 ^ length n) × (le_value (increment n) ≡ 0))
unfolding increment
increment_cases [] h = inr (refl, refl)
increment_cases (b ∷ bs) h = rw pow-suc (ground (arith, increment_cases bs h.1, le_value_lt bs h.1))

-- So it counts modulo the number of nonces.
pub le_value-increment :
    (n : List ℕ) → IsBytes n → le_value (increment n) ≡ (le_value n + 1) % 256 ^ length n
le_value-increment n h = elim (increment_cases n h) [
  | inl (e, lt) ↦ e ∙ sym (mod-eq_of_lt lt)
  | inr (e, z) ↦ z ∙ sym (rw e (mod_self _))
]

pub length-advance : (k : ℕ) (n : List ℕ) → length (advance k n) ≡ length n
length-advance zero n = refl
length-advance (suc k) n = length-advance k (increment n) ∙ length-increment n

-- k increments below the wrap add k.
le_value-advance :
    (k : ℕ) (n : List ℕ)
    → IsBytes n
    → le_value n + k < 256 ^ length n
    → le_value (advance k n) ≡ le_value n + k
le_value-advance zero n h lt = omega arith
le_value-advance (suc k) n h lt = ground (
  arith,
  increment_cases n h,
  length-increment n,
  le_value-advance k (increment n) (increment-IsBytes n h),
)

pub le_value-zeros : (k : ℕ) → le_value (replicate k 0) ≡ 0
le_value-zeros zero = refl
le_value-zeros (suc k) = omega (arith, le_value-zeros k)

pub zeros-IsBytes : (k : ℕ) → IsBytes (replicate k 0)
zeros-IsBytes zero = tt
zeros-IsBytes (suc k) = (omega arith, zeros-IsBytes k)

-- Counting from the zero nonce, two different operations among the first 256 ^ size use different
-- nonces.
pub advance_distinct :
    (size i j : ℕ)
    → i < 256 ^ size
    → j < 256 ^ size
    → i ≢ j
    → advance i (replicate size 0) ≢ advance j (replicate size 0)
advance_distinct size i j hi hj ne e =
    ne (omega (arith, ap le_value e, at_count i hi, at_count j hj))
  where
    at_count : (k : ℕ) → k < 256 ^ size → le_value (advance k (replicate size 0)) ≡ k
    at_count k hk =
        le_value-advance k (replicate size 0) (zeros-IsBytes size)
          (rw (le_value-zeros size, length-replicate {A = ℕ} size 0) (omega arith))
        ∙ rw (le_value-zeros size) (omega arith)
