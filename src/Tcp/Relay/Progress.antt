-- ===== src/Tcp/Relay/Progress.antt =====
-- `relay` of tcp.go comes to its end when one of its copies does.
use go_shadowsocks.Tcp.Relay.Returns.{Steps-Inv, Woke}
use go_shadowsocks.Errors.{Err}
use go_shadowsocks.Tcp.Relay.{
  returned, other_left, other_right, other_copied, main_left, main_right, here, and_then,
  first_error, main_copied, MayEnd, relay_start, half_woken, ended, woken, Steps, copying, State,
  Phase,
}
use go_shadowsocks.Prelude.{ℕ, ◌≡◌, ◌⊎◌, inl, inr, refl, ◌∙◌, true, Option, none, some}

module _ (main_ends other_ends : ℕ → Option Err → Type 0) where
  trans :
      (s t u : State)
      → Steps main_ends other_ends s t
      → Steps main_ends other_ends t u
      → Steps main_ends other_ends s u
  trans s t _ p here = p
  trans s t _ p (and_then u v q e) = and_then u v (trans s t u p q) e

  -- A direction goes on to its end, and the other stays where it is.
  record Over (s t : State) (here_over : Phase) (same : Phase) (same_before : Phase) : Type 0 where
    steps : Steps main_ends other_ends s t
    over : (n : ℕ) × (e : Option Err) × (here_over ≡ woken n e)
    kept : same ≡ same_before
    no_result : t.result ≡ s.result
    passed : (t.left_past ≡ true) × (t.right_past ≡ true)

  main_goes_on :
      (s : State) (ph : Phase)
      → s.main ≡ ph
      → Woke ph s.right_past s.left_past
      → (ph ≡ copying → (n : ℕ) × (e : Option Err) × MayEnd main_ends s n e)
      → (t : State) × Over s t t.main t.other s.other
  main_goes_on s (woken n e) at_work w may = (
    s,
    record {
      steps = here;
      over = (n, e, at_work);
      kept = refl;
      no_result = refl;
      passed = (w.1, w.0);
    },
  )
  main_goes_on s (half_woken n e) at_work w may = (
    _,
    record {
      steps = and_then s _ here (main_left s n e at_work);
      over = (n, e, refl);
      kept = refl;
      no_result = refl;
      passed = (refl, w);
    },
  )
  main_goes_on s (ended n e) at_work w may =
      let s₁ = record s { main = half_woken n e; right_past = true } in
      (
        _,
        record {
          steps =
              and_then s₁ _ (and_then s s₁ here (main_right s n e at_work)) (main_left s₁ n e refl);
          over = (n, e, refl);
          kept = refl;
          no_result = refl;
          passed = (refl, refl);
        },
      )
  main_goes_on s copying at_work w may =
      let (n, e, ends) = may refl in
      let s₁ = record s { main = ended n e } in
      let s₂ = record s₁ { main = half_woken n e; right_past = true } in
      (
        _,
        record {
          steps =
              and_then s₂ _
                (and_then s₁ s₂ (and_then s s₁ here (main_copied s n e at_work ends))
                  (main_right s₁ n e refl))
                (main_left s₂ n e refl);
          over = (n, e, refl);
          kept = refl;
          no_result = refl;
          passed = (refl, refl);
        },
      )

  other_goes_on :
      (s : State) (ph : Phase)
      → s.other ≡ ph
      → Woke ph s.right_past s.left_past
      → (ph ≡ copying → (n : ℕ) × (e : Option Err) × MayEnd other_ends s n e)
      → (t : State) × Over s t t.other t.main s.main
  other_goes_on s (woken n e) at_work w may = (
    s,
    record {
      steps = here;
      over = (n, e, at_work);
      kept = refl;
      no_result = refl;
      passed = (w.1, w.0);
    },
  )
  other_goes_on s (half_woken n e) at_work w may = (
    _,
    record {
      steps = and_then s _ here (other_left s n e at_work);
      over = (n, e, refl);
      kept = refl;
      no_result = refl;
      passed = (refl, w);
    },
  )
  other_goes_on s (ended n e) at_work w may =
      let s₁ = record s { other = half_woken n e; right_past = true } in
      (
        _,
        record {
          steps =
              and_then s₁ _ (and_then s s₁ here (other_right s n e at_work))
                (other_left s₁ n e refl);
          over = (n, e, refl);
          kept = refl;
          no_result = refl;
          passed = (refl, refl);
        },
      )
  other_goes_on s copying at_work w may =
      let (n, e, ends) = may refl in
      let s₁ = record s { other = ended n e } in
      let s₂ = record s₁ { other = half_woken n e; right_past = true } in
      (
        _,
        record {
          steps =
              and_then s₂ _
                (and_then s₁ s₂ (and_then s s₁ here (other_copied s n e at_work ends))
                  (other_right s₁ n e refl))
                (other_left s₂ n e refl);
          over = (n, e, refl);
          kept = refl;
          no_result = refl;
          passed = (refl, refl);
        },
      )

  returns_now :
      (s : State)
      → ((n : ℕ) × (e : Option Err) × (s.main ≡ woken n e))
      → ((m : ℕ) × (f : Option Err) × (s.other ≡ woken m f))
      → s.result ≡ none
      → (t : State) × Steps main_ends other_ends s t
        × (r : ℕ × ℕ × Option Err) × (t.result ≡ some r)
  returns_now s (n, e, main_over) (m, f, other_over) not_yet = (
    _,
    and_then s _ here (returned s n m e f main_over other_over not_yet),
    (n, m, first_error e f),
    refl,
  )

  -- One end is enough: wherever relay stands, if one of its two copies is over or ends by what the
  -- connections give, relay can return, even if nothing ever comes for the other copy, since the
  -- deadlines that the first one sets end it.
  pub relay_returns :
      (s : State)
      → Steps main_ends other_ends relay_start s
      → s.result ≡ none
      → ((s.main ≡ copying → (n : ℕ) × (e : Option Err) × main_ends n e)
          ⊎ (s.other ≡ copying → (n : ℕ) × (e : Option Err) × other_ends n e))
      → (t : State) × Steps main_ends other_ends s t
        × (r : ℕ × ℕ × Option Err) × (t.result ≡ some r)
  relay_returns s st not_yet (inl ends) =
      let h = Steps-Inv main_ends other_ends s st in
      let (s₁, o₁) =
        main_goes_on s s.main refl h.main_woke (λ c. let (n, e, x) = ends c in (n, e, inl x)) in
      let h₁ = Steps-Inv main_ends other_ends s₁ (trans relay_start s s₁ st o₁.steps) in
      let (s₂, o₂) = other_goes_on s₁ s₁.other refl h₁.other_woke (λ c. (0, none, inr o₁.passed)) in
      let (n, e, main_over) = o₁.over in
      let (t, last, r, done) =
        returns_now s₂ (n, e, o₂.kept ∙ main_over) o₂.over
          (o₂.no_result ∙ o₁.no_result ∙ not_yet) in
      (t, trans s s₂ t (trans s s₁ s₂ o₁.steps o₂.steps) last, r, done)
  relay_returns s st not_yet (inr ends) =
      let h = Steps-Inv main_ends other_ends s st in
      let (s₁, o₁) =
        other_goes_on s s.other refl h.other_woke (λ c. let (n, e, x) = ends c in (n, e, inl x)) in
      let h₁ = Steps-Inv main_ends other_ends s₁ (trans relay_start s s₁ st o₁.steps) in
      let (s₂, o₂) = main_goes_on s₁ s₁.main refl h₁.main_woke (λ c. (0, none, inr o₁.passed)) in
      let (m, f, other_over) = o₁.over in
      let (t, last, r, done) =
        returns_now s₂ o₂.over (m, f, o₂.kept ∙ other_over)
          (o₂.no_result ∙ o₁.no_result ∙ not_yet) in
      (t, trans s s₂ t (trans s s₁ s₂ o₁.steps o₂.steps) last, r, done)
