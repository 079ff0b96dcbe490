-- ===== src/Client/Packets.antt =====
-- clientlib/packetconn.go: udpLocal, udpRemote and timedCopy, on what the network's calls return.
-- Peers and sockets are numbers; the table and the datagrams are those of udp.go, which has the same
-- code (Udp/Nat, Udp/Relay). The loops are here on their own: the entries that the goroutines of Add
-- delete are the events `expired`.
pub mod InOrder
pub mod Runs
use go_shadowsocks.Prelude.{ℕ, suc, List, [], ◌∷◌, ◌++◌, Option, none, some}
use go_shadowsocks.Errors.{Err, Result, ok, err, panic}
use go_shadowsocks.Socks.Text.{IpText}
use go_shadowsocks.Socks.Addr.{parse_addr}
use go_shadowsocks.Udp.Nat.{Table, get, put, del}
use go_shadowsocks.Udp.Relay.{Mode, local_request, remote_request, reply}

-- What ReadFrom of the listening socket returns, or a Del of a goroutine.
pub data Event : Type 0 where
  read_failed : Err → Event
  datagram : ℕ → List ℕ → Event
  expired : ℕ → Event

-- The table and the next socket that the network hands out.
pub record State : Type 0 where
  pub table : Table
  pub fresh : ℕ

-- `nm.Get`, and the socket that is opened and added where it finds none; `opens` says whether opening
-- it succeeds.
abbrev pub socket_as : Option ℕ → Option Err → ℕ → State → Option ℕ × State
socket_as (some pc) opens peer s = (some pc, s)
socket_as none (some e) peer s = (none, s)
socket_as none none peer s =
    (some s.fresh, record { table = put peer s.fresh s.table; fresh = suc s.fresh })

unfoldable pub socket : Option Err → ℕ → State → Option ℕ × State
socket opens peer s = socket_as (get peer s.table) opens peer s

-- `socket.WriteTo(b, …)`, if there is a socket: an error of it is only logged.
abbrev pub sent_by : {B : Type 0} → B → Option ℕ × State → List (ℕ × B) × State
sent_by b (none, s) = ([], s)
sent_by b (some pc, s) = ((pc, b) ∷ [], s)

abbrev pub and_then :
    {B : Type 0} → List (ℕ × B) × State → (State → List (ℕ × B) × State) → List (ℕ × B) × State
and_then (w, s) rest = (w ++ (rest s).0, (rest s).1)

-- The loop of `udpLocal`: what is written to the server, through which socket. Each event comes with
-- the error of DialPacketConn.
unfoldable pub local_turn : List ℕ → Event → Option Err → State → List (ℕ × List ℕ) × State
local_turn tgt (read_failed e) dials s = ([], s)
local_turn tgt (datagram peer d) dials s = sent_by (local_request tgt d) (socket dials peer s)
local_turn tgt (expired peer) dials s = ([], record s { table = (del peer s.table).1 })

unfoldable pub local_loop : List ℕ → List (Event × Option Err) → State → List (ℕ × List ℕ) × State
local_loop tgt [] s = ([], s)
local_loop tgt ((e, dials) ∷ rest) s = and_then (local_turn tgt e dials s) (local_loop tgt rest)

abbrev pub start : State
start = record { table = []; fresh = 0 }

-- `udpLocal`, by the error of net.ListenPacket; none where it returns before the loop.
abbrev pub looped :
    Option Err → List (Event × Option Err) → Option (List ℕ) → Option (List (ℕ × List ℕ) × State)
looped listens es none = none
looped (some e) es (some tgt) = none
looped none es (some tgt) = some (local_loop tgt es start)

unfoldable pub udp_local :
    IpText → List ℕ → Option Err → List (Event × Option Err) → Option (List (ℕ × List ℕ) × State)
udp_local t target listens es = looped listens es (parse_addr t target)

-- The loop of `udpRemote`: the address and the payload that are written, through which socket. Each
-- event comes with the errors of net.ListenPacket and of net.ResolveUDPAddr.
abbrev pub relayed_as :
    Option Err
    → Option Err
    → ℕ
    → State
    → Option (List ℕ × List ℕ)
    → List (ℕ × (List ℕ × List ℕ)) × State
relayed_as opens resolves peer s none = ([], s)
relayed_as opens (some e) peer s (some x) = ([], s)
relayed_as opens none peer s (some x) = sent_by x (socket opens peer s)

unfoldable pub remote_turn :
    Event → Option Err → Option Err → State → List (ℕ × (List ℕ × List ℕ)) × State
remote_turn (read_failed e) opens resolves s = ([], s)
remote_turn (datagram peer d) opens resolves s = relayed_as opens resolves peer s (remote_request d)
remote_turn (expired peer) opens resolves s = ([], record s { table = (del peer s.table).1 })

unfoldable pub remote_loop :
    List (Event × Option Err × Option Err) → State → List (ℕ × (List ℕ × List ℕ)) × State
remote_loop [] s = ([], s)
remote_loop ((e, opens, resolves) ∷ rest) s =
    and_then (remote_turn e opens resolves s) (remote_loop rest)

-- `timedCopy`: what ReadFrom returns, with the text of the source, and the error of the WriteTo.
pub data Incoming : Type 0 where
  read_error : Err → Incoming
  packet : List ℕ → List ℕ → Option Err → Incoming

-- Where the copy is: it waits for the next packet, has returned an error, or has panicked.
pub data Copy : Type 0 where
  going_on : Copy
  returned : Err → Copy
  crashed : Copy

abbrev pub copied_as : Option Err → Result (List ℕ) → List (List ℕ) × Copy → List (List ℕ) × Copy
copied_as none (ok p) rest = (p ∷ rest.0, rest.1)
copied_as (some e) (ok p) rest = ([], returned e)
copied_as writes (err e) rest = ([], returned e)
copied_as writes panic rest = ([], crashed)

-- The datagrams that are written without an error, and how the copy stands.
unfoldable pub timed_copy : IpText → Mode → List Incoming → List (List ℕ) × Copy
timed_copy t role [] = ([], going_on)
timed_copy t role (read_error e ∷ rest) = ([], returned e)
timed_copy t role (packet raddr d writes ∷ rest) =
    copied_as writes (reply t role raddr d) (timed_copy t role rest)
