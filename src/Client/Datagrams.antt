-- ===== src/Client/Datagrams.antt =====
-- `udpSocksLocal` of clientlib/client.go: what its loop does with a datagram.
pub mod Repeat
use go_shadowsocks.Prelude.{
  ◌==◌, if◌then◌else◌, drop, true, ◌+◌, false, ◌++◌, length, ◌-◌, ◌∷◌, none, take, some, Bool, List,
  [], Option, ℕ, suc,
}
use go_shadowsocks.Udp.Nat.{Table, get, put}
use go_shadowsocks.Udp.Relay.{udp_buf_size}
use go_shadowsocks.Client.{transip_info}

-- The datagram that is written to the server: the datagram stands from the second byte of the buffer
-- on, and its first three bytes are overwritten.
pub client_request : ℕ → List ℕ → List ℕ
client_request id datagram =
    let d = take (udp_buf_size - 1) datagram in take (length d + 1) (transip_info id ++ drop 3 d)

-- The table of the loop, the readers of pcResetRLock, and the number of the next socket.
pub record State : Type 0 where
  pub table : Table
  pub readers : ℕ
  pub fresh : ℕ

abbrev pub start : State
start = record { table = []; readers = 0; fresh = 0 }

-- RUnlock, `none` where no reader has the lock: a fatal error that stops the program.
abbrev pub unlock : State → Option State
unlock s = if s.readers == 0 then none else some (record s { readers = s.readers - 1 })

abbrev pub lock : State → State
lock s = record s { readers = suc s.readers }

-- The socket and the datagram that are written, if any, and the state for the next turn.
abbrev pub Turn : Type 0
Turn = Option (ℕ × List ℕ) × Option State

-- A turn, by what `nm.Get` finds and whether DialPacketConn succeeds: the lock is taken only where
-- nothing was found, and released in either case.
abbrev pub turn_as : Option ℕ → Bool → ℕ → ℕ → List ℕ → State → Turn
turn_as (some pc) dials id peer d s = (some (pc, client_request id d), unlock s)
turn_as none false id peer d s = (none, unlock (lock s))
turn_as none true id peer d s = (
  some (s.fresh, client_request id d),
  unlock (lock (record s { table = put peer s.fresh s.table; fresh = suc s.fresh })),
)

unfoldable pub turn : ℕ → ℕ → Bool → List ℕ → State → Turn
turn id peer dials d s = turn_as (get peer s.table) dials id peer d s

-- The loop on datagrams, each with its peer and whether dialing would succeed: what is written, and
-- the state at the end, `none` where the program has stopped.
abbrev pub written : Option (ℕ × List ℕ) → List (ℕ × List ℕ)
written none = []
written (some x) = x ∷ []

abbrev pub Served : Type 0
Served = List (ℕ × List ℕ) × Option State

abbrev pub then_serve : Turn → (State → Served) → Served
then_serve (w, none) rest = (written w, none)
then_serve (w, some s) rest = (written w ++ (rest s).0, (rest s).1)

pub serve : ℕ → List (ℕ × Bool × List ℕ) → State → Served
serve id [] s = ([], some s)
serve id ((peer, dials, d) ∷ rest) s = then_serve (turn id peer dials d s) (serve id rest)
