-- ===== src/Errors.antt =====
-- Go's error values and the (value, error) pair of a call that may fail or panic.
use go_shadowsocks.Prelude.{◌≡◌, refl, ◌⊎◌, inl, inr, ℕ, Bool, true, false}

-- The error values that the program returns or compares. `env` numbers the errors of the network
-- and of the operating system, which the program only passes on.
pub data Err : Type 0 where
  eof unexpected_eof short_buffer short_packet : Err
  socks : ℕ → Err
  key_size aes_key_size : ℕ → Err
  cipher_not_supported auth_failed : Err
  conn_exists buffer_too_short conn_closed conn_not_found already_closed : Err
  empty_argument server_port_range local_port_range nil_client not_a_client : Err
  env : ℕ → Err

abbrev pub is_eof : Err → Bool
is_eof eof = true
is_eof _ = false

-- `panic` is a run-time panic, such as a slice bound out of range.
pub data Result {ℓ} (A : Type ℓ) : Type ℓ where
  ok : A → Result A
  err : Err → Result A
  panic : Result A

pub Result-cases {ℓ} :
    {A : Type ℓ} (r : Result A) → ((a : A) × (r ≡ ok a)) ⊎ ((e : Err) × (r ≡ err e)) ⊎ (r ≡ panic)
Result-cases (ok a) = inl (a, refl)
Result-cases (err e) = inr (inl (e, refl))
Result-cases panic = inr (inr refl)

abbrev pub map_result : {A B : Type 0} → (A → B) → Result A → Result B
map_result f (ok a) = ok (f a)
map_result f (err e) = err e
map_result f panic = panic

-- A call on a state: the state stays changed when the call fails.
abbrev pub M : Type 0 → Type 0 → Type 0
M S A = S → Result A × S

abbrev pub pass : {S A B : Type 0} → (A → M S B) → Result A × S → Result B × S
pass f (ok a, s) = f a s
pass f (err e, s) = (err e, s)
pass f (panic, s) = (panic, s)

infixl 5 ◌>>=◌ ◌>>◌
abbrev pub ◌>>=◌ : {S A B : Type 0} → M S A → (A → M S B) → M S B
◌>>=◌ m f s = pass f (m s)

abbrev pub ◌>>◌ : {S A B : Type 0} → M S A → M S B → M S B
m >> k = m >>= λ _. k

abbrev pub return : {S A : Type 0} → A → M S A
return a s = (ok a, s)

abbrev pub fail : {S A : Type 0} → Err → M S A
fail e s = (err e, s)
