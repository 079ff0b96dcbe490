-- ===== src/Websocket.antt =====
-- websocket/packetconn.go: `WSPacketConn`. Addresses, connections and times are numbers, the zero
-- Time is 0. A sync.Map is an association list, as natmap of udp.go is; gorilla's Dial and
-- WriteMessage stand outside.
pub mod Step
pub mod Invariant
pub mod Deadlines
pub mod Writes
pub mod Waiting
pub mod Packets
pub mod Runs
use go_shadowsocks.Prelude.{
  ℕ, Bool, true, false, not, ◌&&◌, List, [], ◌∷◌, ◌++◌, Option, none, some, map, length, ltb, leb,
  ◌==◌, if◌then◌else◌,
}
use go_shadowsocks.Errors.{
  Err, eof, conn_exists, buffer_too_short, conn_closed, conn_not_found, already_closed,
}
use go_shadowsocks.Udp.Nat.{Table, get, put, del}

-- The goroutine of HandleWSConn that reads a connection: in ReadMessage, in the `select` with a
-- packet for `ws.reader`, or behind the deferred Delete.
pub data Phase : Type 0 where
  reading : Phase
  offering : List ℕ → Phase
  deleted : Phase

pub record Worker : Type 0 where
  pub peer : ℕ
  pub conn : ℕ
  pub phase : Phase

-- `conns` is wsConnMap; `ctx_done`, `read_done` and `write_done` say whether the contexts are
-- cancelled; the timers are those of time.AfterFunc that have not fired. `dailer` is the
-- HandshakeTimeout of the dialer, or nil. `hung_up` has the connections that were closed, `sent` the
-- messages that were written and the deadlines what was set on a connection, the latest in front.
pub record State : Type 0 where
  pub username : List ℕ
  pub local_addr : ℕ
  pub conns : Table
  pub closed : Bool
  pub dailer : Option ℕ
  pub ctx_done : Bool
  pub read_done : Bool
  pub write_done : Bool
  pub read_timers : List ℕ
  pub write_timers : List ℕ
  pub read_deadlines : Table
  pub write_deadlines : Table
  pub hung_up : List ℕ
  pub sent : List (ℕ × List ℕ)
  pub workers : List Worker

-- `NewWSPacketConn`.
unfoldable pub new_ws_packet_conn : ℕ → List ℕ → State
new_ws_packet_conn local username = record {
  username = username;
  local_addr = local;
  conns = [];
  closed = false;
  dailer = some 0;
  ctx_done = false;
  read_done = false;
  write_done = false;
  read_timers = [];
  write_timers = [];
  read_deadlines = [];
  write_deadlines = [];
  hung_up = [];
  sent = [];
  workers = [];
}

-- `SetWSTimeout`: a new dialer, or the field of the old one.
pub set_ws_timeout : ℕ → State → State
set_ws_timeout timeout s = record s {
  dailer = elim s.dailer [ none ↦ some timeout | some old ↦ some timeout ];
}

abbrev pub at : ℕ → ℕ → Phase → Worker
at peer conn phase = record { peer = peer; conn = conn; phase = phase }

-- `HandleWSConn` for a connection whose LocalAddr is the second argument; the goroutine starts.
abbrev pub stored : Option ℕ → ℕ → ℕ → ℕ → State → Option Err × State
stored (some old) conn local remote s = (some conn_exists, record s { hung_up = conn ∷ s.hung_up })
stored none conn local remote s = (
  none,
  record s {
    conns = put remote conn s.conns;
    local_addr = local;
    workers = at remote conn reading ∷ s.workers;
  },
)

unfoldable pub handle_ws_conn : ℕ → ℕ → ℕ → State → Option Err × State
handle_ws_conn conn local remote s = stored (get remote s.conns) conn local remote s

-- The `select` of ReadFrom, by the case that it takes.
pub data Select : Type 0 where
  done : Select
  packet : ℕ → List ℕ → Select

-- `ReadFrom(p)` with len(p) = room: the bytes copied, the address, the error.
abbrev pub selected : ℕ → Select → List ℕ × Option ℕ × Option Err
selected room done = ([], none, some eof)
selected room (packet peer p) =
    if ltb room (length p) then ([], some peer, some buffer_too_short) else (p, some peer, none)

pub read_from : ℕ → Select → State → List ℕ × Option ℕ × Option Err
read_from room choice s = if s.closed then ([], none, some eof) else selected room choice

-- What gorilla's Dial returns: a connection and its LocalAddr, or an error.
pub data Dialed : Type 0 where
  connected : ℕ → ℕ → Dialed
  refused : Err → Dialed

-- `if ws.dailer == nil { ws.dailer = websocket.DefaultDialer }`, with that dialer's timeout.
abbrev pub timeout_of : ℕ → Option ℕ → ℕ
timeout_of default none = default
timeout_of default (some t) = t

unfoldable pub with_dialer : ℕ → State → State
with_dialer default s = record s { dailer = some (timeout_of default s.dailer) }

-- The second Load of WriteTo and WriteMessage, whose error is `fault`.
abbrev pub send_to : Option ℕ → Option Err → List ℕ → State → ℕ × Option Err × State
send_to none fault p s = (0, some conn_not_found, s)
send_to (some conn) fault p s = (length p, fault, record s { sent = (conn, p) ∷ s.sent })

unfoldable pub deliver : Option Err → List ℕ → ℕ → State → ℕ × Option Err × State
deliver fault p addr s = send_to (get addr s.conns) fault p s

-- Whether an address is a *WSAddr; Dial, by the username of the header, the timeout and the address.
module _ (is_ws_addr : ℕ → Bool) (dial : List ℕ → ℕ → ℕ → Dialed) (default : ℕ) where
  abbrev pub handle_dialed : ℕ → Dialed → State → Option Err × State
  handle_dialed addr (refused e) s = (some e, s)
  handle_dialed addr (connected conn local) s = (none, (handle_ws_conn conn local addr s).1)

  -- WriteTo where the first Load finds nothing: the error that ends it, if any.
  abbrev pub dial_if : Bool → ℕ → State → Option Err × State
  dial_if false addr s = (some conn_not_found, s)
  dial_if true addr s =
      handle_dialed addr (dial s.username (timeout_of default s.dailer) addr)
        (with_dialer default s)

  pub dial_addr : ℕ → State → Option Err × State
  dial_addr addr s = dial_if (is_ws_addr addr && not (length s.username == 0)) addr s

  abbrev pub unless_found : Option ℕ → Option Err × State → State → Option Err × State
  unless_found (some c) dialled s = (none, s)
  unless_found none dialled s = dialled

  abbrev pub unless_failed : Option Err → List ℕ → ℕ → Option Err × State → ℕ × Option Err × State
  unless_failed fault p addr (some e, s) = (0, some e, s)
  unless_failed fault p addr (none, s) = deliver fault p addr s

  -- `WriteTo(p, addr)`, with no other goroutine between its accesses to the map.
  pub write_to : Option Err → List ℕ → ℕ → State → ℕ × Option Err × State
  write_to fault p addr s =
      if s.closed
      then (0, some conn_closed, s)
      else unless_failed fault p addr (unless_found (get addr s.conns) (dial_addr addr s) s)

-- `ws.cancel()`, which also cancels the contexts below `ctx`, and the loop over the map.
abbrev pub cancel_all : State → State
cancel_all s = record s {
  ctx_done = true;
  read_done = true;
  write_done = true;
  hung_up = map (λ e. e.1) s.conns ++ s.hung_up;
}

-- `Close`.
unfoldable pub close : State → Option Err × State
close s = if s.closed then (some already_closed, s) else (none, cancel_all s)

-- The deadline on every connection of the map.
abbrev pub on_conns : ℕ → Table → Table → Table
on_conns t m old = map (λ e. (e.1, t)) m ++ old

-- `SetReadDeadline` and `SetWriteDeadline` at the time `now`: the context is cancelled at once, or by
-- a timer.
unfoldable pub set_read_deadline : ℕ → ℕ → State → State
set_read_deadline now t s =
    let s' = record s { read_deadlines = on_conns t s.conns s.read_deadlines } in
    if leb t now
    then record s' { read_done = true }
    else record s' { read_timers = t ∷ s.read_timers }

unfoldable pub set_write_deadline : ℕ → ℕ → State → State
set_write_deadline now t s =
    let s' = record s { write_deadlines = on_conns t s.conns s.write_deadlines } in
    if leb t now
    then record s' { write_done = true }
    else record s' { write_timers = t ∷ s.write_timers }

-- `SetDeadline`, which reads the clock twice.
unfoldable pub set_deadline : ℕ → ℕ → ℕ → State → State
set_deadline now now' t s = set_write_deadline now' t (set_read_deadline now t s)
