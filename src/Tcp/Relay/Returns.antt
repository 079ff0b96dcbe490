-- ===== src/Tcp/Relay/Returns.antt =====
-- When `relay` of tcp.go returns, and with what.
use go_shadowsocks.Errors.{Err}
use go_shadowsocks.Tcp.Relay.{
  associate_wait, returned, other_left, other_right, other_copied, main_left, main_right, here,
  and_then, first_error, main_copied, relay_start, half_woken, ended, woken, Steps, Step, copying,
  State, Phase,
}
use go_shadowsocks.Prelude.{
  ℕ, suc, ◌≡◌, refl, subst, Bool, true, false, Option, none, some, List, [], ◌∷◌, ◌++◌, length, map,
  All,
}

-- What a direction has done to the deadlines, the right one first.
abbrev pub Woke : Phase → Bool → Bool → Type 0
Woke copying r l = Unit {0}
Woke (ended n e) r l = Unit {0}
Woke (half_woken n e) r l = r ≡ true
Woke (woken n e) r l = (r ≡ true) × (l ≡ true)

right_set : (ph : Phase) (r l : Bool) → Woke ph r l → Woke ph true l
right_set copying r l w = tt
right_set (ended n e) r l w = tt
right_set (half_woken n e) r l w = refl
right_set (woken n e) r l w = (refl, w.1)

left_set : (ph : Phase) (r l : Bool) → Woke ph r l → Woke ph r true
left_set copying r l w = tt
left_set (ended n e) r l w = tt
left_set (half_woken n e) r l w = w
left_set (woken n e) r l w = (w.0, refl)

-- relay has returned n, m and x: both copies are over, with results that give these.
abbrev pub ReturnedFrom : State → ℕ → ℕ → Option Err → Type 0
ReturnedFrom s n m x =
    (e : Option Err) × (f : Option Err) × (s.main ≡ woken n e)
    × (s.other ≡ woken m f)
    × (x ≡ first_error e f)

pub record Inv (s : State) : Type 0 where
  pub main_woke : Woke s.main s.right_past s.left_past
  pub other_woke : Woke s.other s.right_past s.left_past
  pub came_from : (n m : ℕ) (x : Option Err) → s.result ≡ some (n, m, x) → ReturnedFrom s n m x

module _ (main_ends other_ends : ℕ → Option Err → Type 0) where
  Step-Inv : (s t : State) → Step main_ends other_ends s t → Inv s → Inv t
  Step-Inv _ _ (main_copied s n e at_work may) h = record {
    main_woke = tt;
    other_woke = h.other_woke;
    came_from = λ k m x r.
        let (e', f', before, rest, last) = h.came_from k m x r in absurd (cc (before, at_work));
  }
  Step-Inv _ _ (main_right s n e at_work) h = record {
    main_woke = refl;
    other_woke = right_set s.other s.right_past s.left_past h.other_woke;
    came_from = λ k m x r.
        let (e', f', before, rest, last) = h.came_from k m x r in absurd (cc (before, at_work));
  }
  Step-Inv _ _ (main_left s n e at_work) h = record {
    main_woke = (subst (λ ph. Woke ph s.right_past s.left_past) at_work h.main_woke, refl);
    other_woke = left_set s.other s.right_past s.left_past h.other_woke;
    came_from = λ k m x r.
        let (e', f', before, rest, last) = h.came_from k m x r in absurd (cc (before, at_work));
  }
  Step-Inv _ _ (other_copied s n e at_work may) h = record {
    main_woke = h.main_woke;
    other_woke = tt;
    came_from = λ k m x r.
        let (e', f', main, before, last) = h.came_from k m x r in absurd (cc (before, at_work));
  }
  Step-Inv _ _ (other_right s n e at_work) h = record {
    main_woke = right_set s.main s.right_past s.left_past h.main_woke;
    other_woke = refl;
    came_from = λ k m x r.
        let (e', f', main, before, last) = h.came_from k m x r in absurd (cc (before, at_work));
  }
  Step-Inv _ _ (other_left s n e at_work) h = record {
    main_woke = left_set s.main s.right_past s.left_past h.main_woke;
    other_woke = (subst (λ ph. Woke ph s.right_past s.left_past) at_work h.other_woke, refl);
    came_from = λ k m x r.
        let (e', f', main, before, last) = h.came_from k m x r in absurd (cc (before, at_work));
  }
  Step-Inv _ _ (returned s n m e f main_over other_over r) h = record {
    main_woke = h.main_woke;
    other_woke = h.other_woke;
    came_from = λ n' m' x r'. (e, f, cc (main_over, r'), cc (other_over, r'), cc r');
  }

  pub Steps-Inv : (s : State) → Steps main_ends other_ends relay_start s → Inv s
  Steps-Inv _ here = record {
    main_woke = tt;
    other_woke = tt;
    came_from = λ n m x r. absurd (cc r);
  }
  Steps-Inv _ (and_then t u st e) = Step-Inv t u e (Steps-Inv t st)

-- The wait behind a UDP association calls Read until it returns no timeout error, and ends there,
-- also where the Read succeeds.
pub associate_wait_lem :
    (is_timeout : Err → Bool) (ts : List Err) (r : Option Err) (rs : List (Option Err))
    → All (λ e. is_timeout e ≡ true) ts
    → ((e : Err) → r ≡ some e → is_timeout e ≡ false)
    → associate_wait is_timeout (map some ts ++ r ∷ rs) ≡ some (suc (length ts))
unfolding associate_wait
associate_wait_lem is_timeout [] none rs h other = refl
associate_wait_lem is_timeout [] (some e) rs h other = rw (other e refl) refl
associate_wait_lem is_timeout (t ∷ ts) r rs h other =
    rw (h.0, associate_wait_lem is_timeout ts r rs h.1 other) refl
