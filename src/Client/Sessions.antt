-- ===== src/Client/Sessions.antt =====
-- clientlib/client.go: sessions of `handleConn` and calls of `Reset` taking turns on `connecter` and
-- `upgradeConn`, under connResetRLock. A connecter and an upgrade are numbers.
pub mod Together
use go_shadowsocks.Prelude.{
  ℕ, suc, ◌+◌, ◌-◌, ◌*◌, ◌%◌, ◌≤◌, ◌<◌, ◌≡◌, ◌≢◌, ◌⊎◌, inl, inr, refl, sym, ap, ◌∙◌, subst, Bool,
  true, false, Bool-cases, Option, none, some, Option-cases, List, [], ◌∷◌, ◌++◌, length, take,
  drop, map, All, arith, ltb, leb, ◌==◌, if◌then◌else◌,
}

-- A session: before RLock; with the lock, before and behind the use of the connecter; with the
-- connection upgraded; behind RUnlock.
pub data Session : Type 0 where
  shaking : Session
  holding : Session
  connected : ℕ → Session
  upgraded : ℕ → ℕ → Session
  released : ℕ → ℕ → Session

-- The call of Reset that has the write lock: before its assignments, between the two, behind them.
pub data Writer : Type 0 where
  idle : Writer
  about_to_set : ℕ → ℕ → Writer
  half_set : ℕ → ℕ → Writer
  all_set : Writer

pub record State : Type 0 where
  pub connecter : ℕ
  pub upgrade : ℕ
  pub readers : ℕ
  pub writer : Writer
  pub sessions : List Session

-- What StartsocksConnLocal sets up.
abbrev pub started : ℕ → ℕ → State
started c u = record { connecter = c; upgrade = u; readers = 0; writer = idle; sessions = [] }

-- `allowed c u`: some call of Reset is given the connecter and the upgrade together.
module _ (allowed : ℕ → ℕ → Type 0) where
  pub data Step : State → State → Type 0 where
    accepted : (s : State) → Step s (record s { sessions = shaking ∷ s.sessions })
    read_locked :
        (s : State) (b a : List Session)
        → s.sessions ≡ b ++ shaking ∷ a
        → s.writer ≡ idle
        → Step s (record s { readers = suc s.readers; sessions = b ++ holding ∷ a })
    connect_failed :
        (s : State) (b a : List Session)
        → s.sessions ≡ b ++ holding ∷ a
        → Step s (record s { readers = s.readers - 1; sessions = b ++ a })
    connect_done :
        (s : State) (b a : List Session)
        → s.sessions ≡ b ++ holding ∷ a
        → Step s (record s { sessions = b ++ connected s.connecter ∷ a })
    upgrade_done :
        (s : State) (b a : List Session) (c : ℕ)
        → s.sessions ≡ b ++ connected c ∷ a
        → Step s (record s { sessions = b ++ upgraded c s.upgrade ∷ a })
    -- A write fails.
    write_failed :
        (s : State) (b a : List Session) (c u : ℕ)
        → s.sessions ≡ b ++ upgraded c u ∷ a
        → Step s (record s { readers = s.readers - 1; sessions = b ++ a })
    read_unlocked :
        (s : State) (b a : List Session) (c u : ℕ)
        → s.sessions ≡ b ++ upgraded c u ∷ a
        → Step s (record s { readers = s.readers - 1; sessions = b ++ released c u ∷ a })
    write_locked :
        (s : State) (c u : ℕ)
        → s.writer ≡ idle
        → s.readers ≡ 0
        → allowed c u
        → Step s (record s { writer = about_to_set c u })
    connecter_set :
        (s : State) (c u : ℕ)
        → s.writer ≡ about_to_set c u
        → Step s (record s { connecter = c; writer = half_set c u })
    upgrade_set :
        (s : State) (c u : ℕ)
        → s.writer ≡ half_set c u
        → Step s (record s { upgrade = u; writer = all_set })
    write_unlocked : (s : State) → s.writer ≡ all_set → Step s (record s { writer = idle })

  pub data Steps (s : State) : State → Type 0 where
    here : Steps s s
    and_then : (t u : State) → Steps s t → Step t u → Steps s u
