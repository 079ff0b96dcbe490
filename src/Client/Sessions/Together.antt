-- ===== src/Client/Sessions/Together.antt =====
-- clientlib/client.go: no session mixes the connecter of one Reset with the upgrade of another.
use native.Mathlib.Decide.{ℕ_discrete}
use go_shadowsocks.Client.Sessions.{
  write_unlocked, upgrade_set, connecter_set, write_locked, read_unlocked, write_failed,
  upgrade_done, connect_done, connect_failed, read_locked, here, and_then, started, accepted, Step,
  Steps, holding, shaking, all_set, released, half_set, upgraded, idle, connected, about_to_set,
  State, Session, Writer,
}
use go_shadowsocks.Prelude.{
  All-split, All-replace, All-without, ℕ, ◌+◌, ◌-◌, ◌≡◌, ◌≢◌, refl, sym, ap, subst, List, [], ◌∷◌,
  ◌++◌, All, arith,
}

-- Whether a session has the read lock.
abbrev pub holds : Session → ℕ
holds shaking = 0
holds holding = 1
holds (connected c) = 1
holds (upgraded c u) = 1
holds (released c u) = 0

unfoldable pub count : List Session → ℕ
count [] = 0
count (x ∷ xs) = holds x + count xs

count-append : (xs ys : List Session) → count (xs ++ ys) ≡ count xs + count ys
unfolding count
count-append [] ys = omega arith
count-append (x ∷ xs) ys = omega (arith, count-append xs ys)

count-middle : (b a : List Session) (x : Session) → count (b ++ x ∷ a) ≡ count b + holds x + count a
unfolding count
count-middle b a x = omega (arith, count-append b (x ∷ a))

module _ (allowed : ℕ → ℕ → Type 0) where
  -- What a session has used fits together, and what it uses next is what is set.
  abbrev pub Fits : ℕ → ℕ → Session → Type 0
  Fits c u shaking = Unit {0}
  Fits c u holding = Unit {0}
  Fits c u (connected d) = d ≡ c
  Fits c u (upgraded d v) = allowed d v
  Fits c u (released d v) = allowed d v

  abbrev pub SetUp : ℕ → ℕ → Writer → Type 0
  SetUp c u idle = allowed c u
  SetUp c u (about_to_set d v) = allowed d v
  SetUp c u (half_set d v) = allowed d v × (c ≡ d)
  SetUp c u all_set = allowed c u

  -- The readers are the sessions that hold the lock, and none does while a Reset has the write lock.
  record Inv (s : State) : Type 0 where
    counted : s.readers ≡ count s.sessions
    apart : s.readers ≢ 0 → s.writer ≡ idle
    set_up : SetUp s.connecter s.upgrade s.writer
    fits : All (Fits s.connecter s.upgrade) s.sessions

  -- A session goes on, without another having the write lock.
  session-Inv :
      (s : State) (b a : List Session) (x y : Session) (n : ℕ)
      → s.sessions ≡ b ++ x ∷ a
      → n + holds x ≡ s.readers + holds y
      → (n ≢ 0 → s.writer ≡ idle)
      → Fits s.connecter s.upgrade y
      → Inv s
      → Inv (record s { readers = n; sessions = b ++ y ∷ a })
  session-Inv s b a x y n e total alone fit h = record {
    counted = omega (arith, total, h.counted, ap count e, count-middle b a x, count-middle b a y);
    apart = alone;
    set_up = h.set_up;
    fits =
        All-replace (Fits s.connecter s.upgrade) b x y a fit
          (subst (All (Fits s.connecter s.upgrade)) e h.fits);
  }

  ended-Inv :
      (s : State) (b a : List Session) (x : Session)
      → s.sessions ≡ b ++ x ∷ a
      → holds x ≡ 1
      → Inv s
      → Inv (record s { readers = s.readers - 1; sessions = b ++ a })
  ended-Inv s b a x e one h = record {
    counted = omega (arith, h.counted, ap count e, count-middle b a x, one, count-append b a);
    apart = λ ne. h.apart (λ z. ne (omega (arith, z)));
    set_up = h.set_up;
    fits =
        All-without (Fits s.connecter s.upgrade) b x a
          (subst (All (Fits s.connecter s.upgrade)) e h.fits);
  }

  -- With no lock held, nothing depends on what is set.
  unheld-Fits :
      (c u c' u' : ℕ) (xs : List Session) → count xs ≡ 0 → All (Fits c u) xs → All (Fits c' u') xs
  unfolding count
  unheld-Fits c u c' u' [] n h = tt
  unheld-Fits c u c' u' (shaking ∷ xs) n h = (tt, unheld-Fits c u c' u' xs (omega (arith, n)) h.1)
  unheld-Fits c u c' u' (holding ∷ xs) n h = absurd (omega (arith, n))
  unheld-Fits c u c' u' (connected d ∷ xs) n h = absurd (omega (arith, n))
  unheld-Fits c u c' u' (upgraded d v ∷ xs) n h = absurd (omega (arith, n))
  unheld-Fits c u c' u' (released d v ∷ xs) n h =
      (h.0, unheld-Fits c u c' u' xs (omega (arith, n)) h.1)

  none_held : (s : State) → s.writer ≢ idle → Inv s → s.readers ≡ 0
  none_held s busy h = elim (ℕ_discrete s.readers 0) [
    | yes z ↦ z
    | no ne ↦ absurd (busy (h.apart ne))
  ]

  held :
      (s : State) (b a : List Session) (x : Session)
      → s.sessions ≡ b ++ x ∷ a
      → holds x ≡ 1
      → Inv s
      → s.readers ≢ 0
  held s b a x e one h z = absurd (omega (arith, h.counted, ap count e, count-middle b a x, one, z))

  idle-allowed : (s : State) → s.readers ≢ 0 → Inv s → allowed s.connecter s.upgrade
  idle-allowed s busy h = subst (SetUp s.connecter s.upgrade) (h.apart busy) h.set_up

  middle-All :
      (P : Session → Type 0) (s : State) (b a : List Session) (x : Session)
      → s.sessions ≡ b ++ x ∷ a
      → All P s.sessions
      → P x
  middle-All P s b a x e h = (All-split P b (x ∷ a) (subst (All P) e h)).1.0

  Step-Inv : (s t : State) → Step allowed s t → Inv s → Inv t
  unfolding count
  Step-Inv _ _ (accepted s) h = record {
    counted = omega (arith, h.counted);
    apart = h.apart;
    set_up = h.set_up;
    fits = (tt, h.fits);
  }
  Step-Inv _ _ (read_locked s b a e i) h =
      session-Inv s b a shaking holding _ e (omega arith) (λ ne. i) tt h
  Step-Inv _ _ (connect_failed s b a e) h = ended-Inv s b a holding e refl h
  Step-Inv _ _ (connect_done s b a e) h =
      session-Inv s b a holding (connected s.connecter) _ e refl h.apart refl h
  Step-Inv _ _ (upgrade_done s b a c e) h =
      let busy = held s b a (connected c) e refl h in
      let up = idle-allowed s busy h in
      session-Inv s b a (connected c) (upgraded c s.upgrade) _ e refl h.apart
        (subst (λ d. allowed d s.upgrade)
          (sym (middle-All (Fits s.connecter s.upgrade) s b a (connected c) e h.fits)) up)
        h
  Step-Inv _ _ (write_failed s b a c u e) h = ended-Inv s b a (upgraded c u) e refl h
  Step-Inv _ _ (read_unlocked s b a c u e) h =
      let busy = held s b a (upgraded c u) e refl h in
      session-Inv s b a (upgraded c u) (released c u) _ e (omega (arith, busy)) (λ ne. h.apart busy)
        (middle-All (Fits s.connecter s.upgrade) s b a (upgraded c u) e h.fits) h
  Step-Inv _ _ (write_locked s c u i r ok_pair) h = record {
    counted = h.counted;
    apart = λ ne. absurd (ne r);
    set_up = ok_pair;
    fits = h.fits;
  }
  Step-Inv _ _ (connecter_set s c u w) h =
      let free = none_held s (λ i. cc (w, i)) h in
      record {
        counted = h.counted;
        apart = λ ne. absurd (ne free);
        set_up = (subst (SetUp s.connecter s.upgrade) w h.set_up, refl);
        fits =
            unheld-Fits s.connecter s.upgrade c s.upgrade s.sessions
              (omega (arith, free, h.counted)) h.fits;
      }
  Step-Inv _ _ (upgrade_set s c u w) h =
      let free = none_held s (λ i. cc (w, i)) h in
      let (pair, same) = subst (SetUp s.connecter s.upgrade) w h.set_up in
      record {
        counted = h.counted;
        apart = λ ne. absurd (ne free);
        set_up = subst (λ d. allowed d u) (sym same) pair;
        fits =
            unheld-Fits s.connecter s.upgrade s.connecter u s.sessions
              (omega (arith, free, h.counted)) h.fits;
      }
  Step-Inv _ _ (write_unlocked s w) h = record {
    counted = h.counted;
    apart = λ ne. refl;
    set_up = subst (SetUp s.connecter s.upgrade) w h.set_up;
    fits = h.fits;
  }

  Steps-Inv : (s t : State) → Steps allowed s t → Inv s → Inv t
  Steps-Inv s _ here h = h
  Steps-Inv s _ (and_then t u st e) h = Step-Inv t u e (Steps-Inv s t st h)

  -- Under every interleaving of sessions and calls of Reset, where the first pair and those that Reset
  -- is given are allowed: what a session has connected with and the upgrade that it has used are an
  -- allowed pair, never the halves of two; and while a session has the lock, no Reset is under way.
  pub sessions_together :
      (c u : ℕ) (s : State) (b a : List Session) (d v : ℕ)
      → allowed c u
      → Steps allowed (started c u) s
      → s.sessions ≡ b ++ upgraded d v ∷ a
      → allowed d v × (s.writer ≡ idle)
  unfolding count
  sessions_together c u s b a d v first st e =
      let h =
        Steps-Inv (started c u) s st
          (record { counted = refl; apart = λ ne. refl; set_up = first; fits = tt }) in
      (
        middle-All (Fits s.connecter s.upgrade) s b a (upgraded d v) e h.fits,
        h.apart (held s b a (upgraded d v) e refl h),
      )
