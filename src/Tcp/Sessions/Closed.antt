-- ===== src/Tcp/Sessions/Closed.antt =====
-- tcp.go: no connection leaks or is used behind its Close.
use go_shadowsocks.Tcp.Relay.{associate_wait}
use go_shadowsocks.Errors.{err, ok, panic, Result, Err}
use go_shadowsocks.Tcp.Sessions.{
  crashed, local_closed, remote_closed, relayed, is_associate, waited, wrote, dialed, local_session,
  remote_session, Action,
}
use go_shadowsocks.Prelude.{
  ◌&&◌, ℕ, ◌≡◌, ◌≢◌, refl, Bool, true, false, Bool-cases, Option, none, some, Option-cases, List,
  [], ◌∷◌, arith, if◌then◌else◌,
}

-- Which of the two connections is open.
pub record Open : Type 0 where
  pub local_open : Bool
  pub remote_open : Bool

-- What each action needs, and what it leaves; `none` is a use or a Close of a connection that is not
-- open, or a second connection.
abbrev pub act : Action → Open → Option Open
act (dialed good) o = if o.remote_open then none else some (record o { remote_open = good })
act (wrote b) o = if o.remote_open then some o else none
act relayed o = if o.local_open && o.remote_open then some o else none
act (waited n) o = if o.local_open then some o else none
act remote_closed o = if o.remote_open then some (record o { remote_open = false }) else none
act local_closed o = if o.local_open then some (record o { local_open = false }) else none
act crashed o = none

unfoldable pub acts : List Action → Open → Option Open
acts [] o = some o
acts (a ∷ rest) o = elim (act a o) [ none ↦ none | some later ↦ acts rest later ]

abbrev pub accepted : Open
accepted = record { local_open = true; remote_open = false }

abbrev pub all_closed : Open
all_closed = record { local_open = false; remote_open = false }

-- The goroutine of tcpLocal, where `getAddr` does not panic and a UDP association, if there is one,
-- comes to an end, uses its connections only while they are open, closes each once, and leaves none.
pub local_session-acts :
    (is_timeout : Err → Bool) (r : Result (List ℕ)) (dial_error write_error : Option Err)
    (waits : List (Option Err))
    → r ≢ panic
    → associate_wait is_timeout waits ≢ none
    → acts (local_session is_timeout r dial_error write_error waits) accepted ≡ some all_closed
unfolding acts local_session
local_session-acts is_timeout (ok tgt) dial_error write_error waits np ends =
    ground (arith, Option-cases dial_error, Option-cases write_error)
local_session-acts is_timeout (err e) dial_error write_error waits np ends =
    ground
      (arith, ends, Bool-cases (is_associate e), Option-cases (associate_wait is_timeout waits))
local_session-acts is_timeout panic dial_error write_error waits np ends = absurd (np refl)

-- So does the goroutine of tcpRemote.
pub remote_session-acts :
    (r : Result (List ℕ)) (dial_error : Option Err)
    → r ≢ panic
    → acts (remote_session r dial_error) accepted ≡ some all_closed
unfolding acts remote_session
remote_session-acts (ok tgt) dial_error np = ground (arith, Option-cases dial_error)
remote_session-acts (err e) dial_error np = refl
remote_session-acts panic dial_error np = absurd (np refl)
