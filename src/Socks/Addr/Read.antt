-- ===== src/Socks/Addr/Read.antt =====
-- `ReadAddr` of socks/socks.go reads exactly what `SplitAddr` would cut off.
use go_shadowsocks.Prelude.{
  ℕ, ◌+◌, ◌-◌, ◌≤◌, ◌<◌, ◌≡◌, refl, ◌∙◌, ap, subst, append_cancel, List, [], ◌∷◌, ◌++◌, Option,
  none, some, length, take, take-append-drop, ◌≢◌, Bool-cases, ltb, if◌then◌else◌, inl, inr, arith,
}
use native.Mathlib.Decide.{ℕ_discrete}
use go_shadowsocks.Errors.{Err, Result, ok, err}
use go_shadowsocks.Io.{Source, pending, ending, read_full, full_error}
use go_shadowsocks.Io.ReadFull.{read_full_enough, read_full_short}
use go_shadowsocks.Socks.Addr.Split.{take_two}
use go_shadowsocks.Socks.Addr.{
  split_addr, read_domain, read_fixed, read_by_type, read_addr_into, read_addr,
  err_address_not_supported, max_addr_len,
}

-- A read that returns `a`, and leaves to come what stands behind it in `whole`.
abbrev pub Reads : Source → List ℕ → Result (List ℕ) × Source → List ℕ → Type 0
Reads s whole r a = (r.0 ≡ ok a) × (a ++ pending r.1 ≡ whole) × (ending r.1 ≡ ending s)

-- A read that fails, with nothing left.
abbrev pub Fails : Result (List ℕ) × Source → Type 0
Fails r = (e : Err) × (r.0 ≡ err e)

read_fixed-Reads :
    (atyp n : ℕ) (s : Source)
    → n ≤ length (pending s)
    → Reads s (atyp ∷ pending s) (read_fixed read_full atyp n s) (atyp ∷ take n (pending s))
unfolding read_fixed
read_fixed-Reads atyp n s h = ground (arith, read_full_enough n s h, take-append-drop n (pending s))

read_fixed-Fails :
    (atyp n : ℕ) (s : Source) → length (pending s) < n → Fails (read_fixed read_full atyp n s)
unfolding read_fixed
read_fixed-Fails atyp n s h =
    (full_error (length (pending s)) (ending s), ground (arith, read_full_short n s h))

read_domain-Reads :
    (s : Source) (l : ℕ) (b : List ℕ)
    → pending s ≡ l ∷ b
    → l + 2 ≤ length b
    → Reads s (3 ∷ pending s) (read_domain read_full s) (3 ∷ l ∷ take (l + 2) b)
unfolding read_domain
read_domain-Reads s l b e h =
    let (got, left, end) = read_full_enough 1 s (rw e (omega arith)) in
    let came : pending (read_full 1 s).1 ≡ b = left ∙ rw e in
    let (got₂, left₂, end₂) = read_full_enough (l + 2) (read_full 1 s).1 (rw came h) in
    ground (arith, got, e, came, got₂, left₂, end₂, end, take-append-drop (l + 2) b)

read_domain-Fails :
    (s : Source) (l : ℕ) (b : List ℕ)
    → pending s ≡ l ∷ b
    → length b < l + 2
    → Fails (read_domain read_full s)
unfolding read_domain
read_domain-Fails s l b e h =
    let (got, left, end) = read_full_enough 1 s (rw e (omega arith)) in
    let came : pending (read_full 1 s).1 ≡ b = left ∙ rw e in
    let (got₂, _, _) = read_full_short (l + 2) (read_full 1 s).1 (rw came h) in
    (full_error (length b) (ending s), ground (arith, got, e, came, got₂, end))

read_domain_empty : (s : Source) → pending s ≡ [] → Fails (read_domain read_full s)
unfolding read_domain
read_domain_empty s e = (ending s, ground (arith, read_full_short 1 s (rw e (omega arith)), e))

-- What a reading must do where `SplitAddr` cuts off an address, and where it does not.
abbrev pub Outcome : Source → List ℕ → Result (List ℕ) × Source → Option (List ℕ) → Type 0
Outcome s whole r none = Fails r
Outcome s whole r (some a) = Reads s whole r a

cut_Outcome :
    (n : ℕ) (a b whole : List ℕ) (s : Source) (r : Result (List ℕ) × Source)
    → (n ≤ length b → Reads s whole r a)
    → (length b < n → Fails r)
    → Outcome s whole r (if ltb (length b) n then none else some a)
cut_Outcome n a b whole s r reads fails = elim (Bool-cases (ltb (length b) n)) [
  | inl e ↦ rw e (fails (ground arith))
  | inr e ↦ rw e (reads (ground arith))
]

-- Where `SplitAddr` cuts, by address type.
pub split_v4 :
    (b : List ℕ) → split_addr (1 ∷ b) ≡ (if ltb (length b) 6 then none else some (1 ∷ take 6 b))
unfolding split_addr
split_v4 b = ground arith

pub split_v6 :
    (b : List ℕ) → split_addr (4 ∷ b) ≡ (if ltb (length b) 18 then none else some (4 ∷ take 18 b))
unfolding split_addr
split_v6 b = ground arith

pub split_domain :
    (l : ℕ) (b : List ℕ)
    → split_addr (3 ∷ l ∷ b)
      ≡ (if ltb (length b) (l + 2) then none else some (3 ∷ l ∷ take (l + 2) b))
unfolding split_addr
split_domain l b =
    ground (arith, take_two (2 + l + 2) 3 l b (omega arith), ap (λ k. take k b) (shift l))
  where
    shift : (k : ℕ) → 2 + k + 2 - 2 ≡ k + 2
    shift k = omega arith

pub split_other : (x : ℕ) (b : List ℕ) → x ≢ 1 → x ≢ 3 → x ≢ 4 → split_addr (x ∷ b) ≡ none
unfolding split_addr
split_other x b h₁ h₃ h₄ = ground arith

by_domain :
    (s : Source) (b : List ℕ)
    → pending s ≡ b
    → Outcome s (3 ∷ pending s) (read_domain read_full s) (split_addr (3 ∷ b))
by_domain s [] e = unfold split_addr in read_domain_empty s e
by_domain s (l ∷ b) e = rw (split_domain l b) (
    cut_Outcome (l + 2) (3 ∷ l ∷ take (l + 2) b) b (3 ∷ pending s) s (read_domain read_full s)
      (read_domain-Reads s l b e) (read_domain-Fails s l b e))

by_type :
    (x : ℕ) (s : Source)
    → Outcome s (x ∷ pending s) (read_by_type read_full (x ∷ []) s) (split_addr (x ∷ pending s))
unfolding read_by_type
by_type x s = elim (ℕ_discrete x 3) [
  | yes e ↦ rw e (by_domain s (pending s) refl)
  | no n₃ ↦ elim (ℕ_discrete x 1) [
    | yes e ↦
        rw (e, split_v4 (pending s))
          (cut_Outcome 6 _ (pending s) _ s (read_fixed read_full 1 6 s) (read_fixed-Reads 1 6 s)
            (read_fixed-Fails 1 6 s))
    | no n₁ ↦ elim (ℕ_discrete x 4) [
      | yes e ↦
          rw (e, split_v6 (pending s))
            (cut_Outcome 18 _ (pending s) _ s (read_fixed read_full 4 18 s)
              (read_fixed-Reads 4 18 s) (read_fixed-Fails 4 18 s))
      | no n₄ ↦ rw (split_other x (pending s) n₁ n₃ n₄) (err_address_not_supported, ground arith)
    ]
  ]
]

read_addr_step :
    (s : Source) (x : ℕ) (b : List ℕ)
    → pending s ≡ x ∷ b
    → (s' : Source) × (read_addr read_full s ≡ read_by_type read_full (x ∷ []) s')
      × (pending s' ≡ b)
      × (ending s' ≡ ending s)
unfolding read_addr read_addr_into
read_addr_step s x b e =
    let (got, left, end) = read_full_enough 1 s (rw e (omega arith)) in
    ((read_full 1 s).1, ground (arith, got, e), left ∙ rw e, end)

read_addr_empty : (s : Source) → pending s ≡ [] → Fails (read_addr read_full s)
unfolding read_addr read_addr_into
read_addr_empty s e = (ending s, ground (arith, read_full_short 1 s (rw e (omega arith)), e))

Outcome-same :
    (s s' : Source) (whole : List ℕ) (r : Result (List ℕ) × Source) (o : Option (List ℕ))
    → ending s' ≡ ending s
    → Outcome s' whole r o
    → Outcome s whole r o
Outcome-same s s' whole r none e h = h
Outcome-same s s' whole r (some a) e (got, left, end) = (got, left, end ∙ e)

Outcome-from :
    (s : Source) (b : List ℕ) → pending s ≡ b → Outcome s b (read_addr read_full s) (split_addr b)
Outcome-from s [] e = unfold split_addr in read_addr_empty s e
Outcome-from s (x ∷ b) e =
    let (s', step, left, end) = read_addr_step s x b e in
    Outcome-same s s' (x ∷ b) (read_addr read_full s) (split_addr (x ∷ b)) end
      (rw (step, ← left) (by_type x s'))

-- `ReadAddr` agrees with `SplitAddr` on the bytes that the reader delivers, however it cuts them:
-- where `SplitAddr` finds an address, `ReadAddr` returns it and leaves exactly what follows it, and
-- where `SplitAddr` returns nil, `ReadAddr` returns an error.
pub read_addr-split_addr :
    (s : Source) → Outcome s (pending s) (read_addr read_full s) (split_addr (pending s))
read_addr-split_addr s = Outcome-from s (pending s) refl

-- The same in `readAddr` with the full buffer, where the reader delivers `a` and then `rest`.
pub read_addr_into-max :
    (s : Source) (a rest : List ℕ)
    → pending s ≡ a ++ rest
    → split_addr (a ++ rest) ≡ some a
    → ((read_addr_into read_full max_addr_len s).0 ≡ ok a)
      × (pending (read_addr_into read_full max_addr_len s).1 ≡ rest)
      × (ending (read_addr_into read_full max_addr_len s).1 ≡ ending s)
unfolding read_addr
read_addr_into-max s a rest e h =
    let reads : Reads s (a ++ rest) (read_addr read_full s) a =
      subst (λ o. Outcome s (a ++ rest) (read_addr read_full s) o) h
        (Outcome-from s (a ++ rest) e) in
    (reads.0, append_cancel a _ rest reads.1, reads.2)

pub read_addr_into-none :
    (s : Source) → split_addr (pending s) ≡ none → Fails (read_addr_into read_full max_addr_len s)
unfolding read_addr
read_addr_into-none s h =
    subst (λ o. Outcome s (pending s) (read_addr read_full s) o) h (Outcome-from s (pending s) refl)
