-- ===== src/Socks/Addr/Split.antt =====
-- `SplitAddr` of socks/socks.go: a SOCKS address is self-delimiting.
use go_shadowsocks.Prelude.{
  ℕ, zero, suc, ◌+◌, ◌-◌, ◌≤◌, ◌≡◌, ◌∙◌, ap, sym, List, [], ◌∷◌, ◌++◌, some, length, take, drop,
  IsBytes, length-append, length-take, take-append-drop, take-append, Option-cases, inl, inr, ◌⊎◌,
  arith,
}
use go_shadowsocks.Socks.Addr.{addr_len, split_addr, cut_at, max_addr_len}

-- A complete address and nothing behind it.
abbrev pub IsAddr : List ℕ → Type 0
IsAddr a = split_addr a ≡ some a

pub take_two : (n x y : ℕ) (b : List ℕ) → 2 ≤ n → take n (x ∷ y ∷ b) ≡ x ∷ y ∷ take (n - 2) b
take_two zero x y b h = absurd (omega arith)
take_two (suc zero) x y b h = absurd (omega arith)
take_two (suc (suc n)) x y b h = ap (λ k. x ∷ y ∷ take k b) (omega arith)

-- What a successful `SplitAddr` found.
split_addr_ok :
    (b a : List ℕ)
    → split_addr b ≡ some a
    → (n : ℕ) × (addr_len b ≡ some n) × (n ≤ length b) × (a ≡ take n b)
unfolding split_addr
split_addr_ok b a e = elim (Option-cases (addr_len b)) [
  | inl missing ↦ absurd (ground (arith, missing))
  | inr (n, at) ↦ (n, at, ground (arith, at), ground (arith, at))
]

pub cut_addr :
    (b : List ℕ) (n : ℕ)
    → addr_len b ≡ some n
    → n ≤ length b
    → 1 ≤ n
    → split_addr b ≡ some (take n b)
unfolding split_addr
cut_addr b n e h k = rw (e, cut_at) (ground arith)

-- The length is announced by the first two bytes.
addr_len_two :
    (x y n : ℕ) (b c : List ℕ)
    → addr_len (x ∷ y ∷ b) ≡ some n
    → (2 ≤ n) × (addr_len (x ∷ y ∷ c) ≡ some n) × ((n ≤ y + 4) ⊎ (n ≤ 19))
unfolding addr_len
addr_len_two x y n b c e = ground arith

addr_len-take :
    (b more : List ℕ) (n : ℕ)
    → addr_len b ≡ some n
    → n ≤ length b
    → (2 ≤ n) × (addr_len (take n b ++ more) ≡ some n)
addr_len-take [] more n e h = absurd (unfold addr_len in ground arith)
addr_len-take (x ∷ []) more n e h = absurd (unfold addr_len in ground arith)
addr_len-take (x ∷ y ∷ b) more n e h =
    let (two, at, _) = addr_len_two x y n b (take (n - 2) b ++ more) e in
    (two, rw (take_two n x y b two) at)

addr_len_max : (b : List ℕ) (n : ℕ) → IsBytes b → addr_len b ≡ some n → n ≤ max_addr_len
addr_len_max [] n h e = absurd (unfold addr_len in ground arith)
addr_len_max (x ∷ []) n h e = unfold addr_len in ground arith
addr_len_max (x ∷ y ∷ b) n h e = omega (arith, (addr_len_two x y n b b e).2, h.1.0)

-- `SplitAddr` returns a prefix of its input, of at most MaxAddrLen bytes, and one that it would cut
-- off again whatever follows it: an address announces its own length.
pub split_addr_self_delimiting :
    (b a more : List ℕ)
    → IsBytes b
    → split_addr b ≡ some a
    → (a ++ drop (length a) b ≡ b) × (length a ≤ max_addr_len) × (split_addr (a ++ more) ≡ some a)
split_addr_self_delimiting b a more bytes e =
    let (n, at, fits, cut) = split_addr_ok b a e in
    let (two, again) = addr_len-take b more n at fits in
    let size : length (take n b) ≡ n = omega (arith, length-take n b) in
    rw cut (
      ap (λ k. take n b ++ drop k b) size ∙ take-append-drop n b,
      rw size (addr_len_max b n bytes at),
      cut_addr (take n b ++ more) n again (omega (arith, size, length-append (take n b) more))
            (omega arith)
          ∙ ap some (take-append (take n b) more n (sym size)),
    )
