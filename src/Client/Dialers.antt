-- ===== src/Client/Dialers.antt =====
-- The connecters of clientlib/tcp.go and clientlib/websocket.go. A connection is a number, a nil one
-- `none`.
pub mod Order
use go_shadowsocks.Prelude.{inr, inl, ◌⊎◌, none, some, ℕ, Option, List}
use go_shadowsocks.Errors.{Err, Result, ok, err, panic}
use go_shadowsocks.Websocket.{State, new_ws_packet_conn, set_ws_timeout}

-- `freconn.UpgradeConn(c)` with `EnableStat`: a connection around `c`, which may be nil.
pub data Counted : Type 0 where
  counted : Option ℕ → Counted

-- `TCPConnecter.Connect`, on the local address and what Dial, ResolveTCPAddr and DialTCP return. The
-- error of DialTCP is assigned to the inner `e`, and the outer `err` stays nil.
abbrev pub after_dial : Option ℕ × Option Err → Option Counted × Option Err
after_dial (c, some e) = (none, some e)
after_dial (c, none) = (some (counted c), none)

abbrev pub with_local : Result (Option ℕ × Option Err) → Option Counted × Option Err
with_local (err e) = (none, some e)
with_local panic = (none, none)
with_local (ok (c, e)) = after_dial (c, none)

-- `resolved` is the error of ResolveTCPAddr, or else the result of DialTCP.
unfoldable pub connect :
    Option ℕ → Option ℕ × Option Err → Result (Option ℕ × Option Err) → Option Counted × Option Err
connect none dialled resolved = after_dial dialled
connect (some local) dialled resolved = with_local resolved

-- `WSConnecter`: the timeout of its dialer, or nil.
pub record WsConnecter : Type 0 where
  pub username : List ℕ
  pub dailer : Option ℕ

-- `SetTimeout`.
unfoldable pub set_timeout : ℕ → WsConnecter → WsConnecter
set_timeout timeout w = record w {
  dailer = elim w.dailer [ none ↦ some timeout | some old ↦ some timeout ];
}

-- `Connect`, on what Dial of the websocket dialer returns; 10 s in nanoseconds.
abbrev pub default_timeout : ℕ
default_timeout = 10_000_000_000

abbrev pub timeout_of : Option ℕ → ℕ
timeout_of none = default_timeout
timeout_of (some t) = t

abbrev pub upgraded : ℕ ⊎ Err → Option Counted × Option Err
upgraded (inl c) = (some (counted (some c)), none)
upgraded (inr e) = (none, some e)

unfoldable pub ws_connect :
    (List ℕ → ℕ → ℕ ⊎ Err) → WsConnecter → (Option Counted × Option Err) × WsConnecter
ws_connect dial w = (
  upgraded (dial w.username (timeout_of w.dailer)),
  record w { dailer = some (timeout_of w.dailer) },
)

-- `DialPacketConn`: `ws.dailer.HandshakeTimeout` panics where the dialer is nil.
abbrev pub packet_conn_as : Option ℕ → ℕ → List ℕ → Result State
packet_conn_as none local username = panic
packet_conn_as (some t) local username = ok (set_ws_timeout t (new_ws_packet_conn local username))

unfoldable pub dial_packet_conn : ℕ → WsConnecter → Result State
dial_packet_conn local w = packet_conn_as w.dailer local w.username
