-- ===== src/Tcp/Relay.antt =====
-- `relay` of tcp.go (and of clientlib/conn.go, which is the same): its two copies, each followed by
-- two SetDeadline calls, taking turns; and the wait for the end of a UDP association.
pub mod Returns
pub mod Progress
use go_shadowsocks.Prelude.{
  ℕ, suc, Bool, true, false, ◌≡◌, ◌⊎◌, List, [], ◌∷◌, Option, none, some, if◌then◌else◌,
}
use go_shadowsocks.Errors.{Err}

-- A direction: in io.Copy, behind it with its result, behind the first SetDeadline, behind the second.
pub data Phase : Type 0 where
  copying : Phase
  ended : ℕ → Option Err → Phase
  half_woken : ℕ → Option Err → Phase
  woken : ℕ → Option Err → Phase

-- `main` copies from right to left, `other` is the goroutine; `left_past` and `right_past` say whether
-- a deadline in the past was set; `result` is what relay returned.
pub record State : Type 0 where
  pub main : Phase
  pub other : Phase
  pub left_past : Bool
  pub right_past : Bool
  pub result : Option (ℕ × ℕ × Option Err)

abbrev pub relay_start : State
relay_start = record {
  main = copying;
  other = copying;
  left_past = false;
  right_past = false;
  result = none;
}

-- `if err == nil { err = rs.Err }`.
abbrev pub first_error : Option Err → Option Err → Option Err
first_error none f = f
first_error (some e) f = some e

-- A copy ends with what the connections give by themselves (`main_ends`, `other_ends`), or when both
-- deadlines have passed. The goroutine's send and its receipt are one step.
abbrev pub MayEnd : (ℕ → Option Err → Type 0) → State → ℕ → Option Err → Type 0
MayEnd ends s n e = ends n e ⊎ ((s.left_past ≡ true) × (s.right_past ≡ true))

module _ (main_ends other_ends : ℕ → Option Err → Type 0) where
  pub data Step : State → State → Type 0 where
    main_copied :
        (s : State) (n : ℕ) (e : Option Err)
        → s.main ≡ copying
        → MayEnd main_ends s n e
        → Step s (record s { main = ended n e })
    main_right :
        (s : State) (n : ℕ) (e : Option Err)
        → s.main ≡ ended n e
        → Step s (record s { main = half_woken n e; right_past = true })
    main_left :
        (s : State) (n : ℕ) (e : Option Err)
        → s.main ≡ half_woken n e
        → Step s (record s { main = woken n e; left_past = true })
    other_copied :
        (s : State) (n : ℕ) (e : Option Err)
        → s.other ≡ copying
        → MayEnd other_ends s n e
        → Step s (record s { other = ended n e })
    other_right :
        (s : State) (n : ℕ) (e : Option Err)
        → s.other ≡ ended n e
        → Step s (record s { other = half_woken n e; right_past = true })
    other_left :
        (s : State) (n : ℕ) (e : Option Err)
        → s.other ≡ half_woken n e
        → Step s (record s { other = woken n e; left_past = true })
    returned :
        (s : State) (n m : ℕ) (e f : Option Err)
        → s.main ≡ woken n e
        → s.other ≡ woken m f
        → s.result ≡ none
        → Step s (record s { result = some (n, m, first_error e f) })

  pub data Steps (s : State) : State → Type 0 where
    here : Steps s s
    and_then : (t u : State) → Steps s t → Step t u → Steps s u

abbrev pub plus_one : Option ℕ → Option ℕ
plus_one none = none
plus_one (some n) = some (suc n)

-- The loop behind InfoUDPAssociate, on the errors that Read returns: how many calls of Read it makes,
-- or `none` where it goes on.
unfoldable pub associate_wait : (Err → Bool) → List (Option Err) → Option ℕ
associate_wait is_timeout [] = none
associate_wait is_timeout (none ∷ rs) = some 1
associate_wait is_timeout (some e ∷ rs) =
    if is_timeout e then plus_one (associate_wait is_timeout rs) else some 1
