-- ===== src/Tcp/Sessions.antt =====
-- tcp.go: what the goroutines of `tcpLocal` and `tcpRemote` do with their two connections, on every
-- path. What they send is in Tcp.
pub mod Closed
use go_shadowsocks.Prelude.{
  ◌∷◌, false, none, [], true, if◌then◌else◌, ℕ, ◌++◌, some, ◌==◌, Bool, Option, List,
}
use go_shadowsocks.Errors.{Err, Result, ok, err, panic}
use go_shadowsocks.Io.{Conn}
use go_shadowsocks.Socks.Text.{IpText}
use go_shadowsocks.Socks.Addr.{parse_addr, info_udp_associate}
use go_shadowsocks.Socks.Handshake.{handshake}
use go_shadowsocks.Tcp.Relay.{associate_wait}

-- `dialed` is net.Dial of the server or the target and whether it succeeds, `waited` the calls of Read
-- of a UDP association, `crashed` a panic.
pub data Action : Type 0 where
  dialed : Bool → Action
  wrote : List ℕ → Action
  relayed : Action
  waited : ℕ → Action
  remote_closed : Action
  local_closed : Action
  crashed : Action

abbrev pub is_associate : Err → Bool
is_associate (Err.socks n) = n == 9
is_associate e = false

-- The deferred Close of the accepted connection.
abbrev pub close_local : List Action → List Action
close_local steps = steps ++ local_closed ∷ []

abbrev pub wait_for : Option ℕ → List Action
wait_for none = waited 0 ∷ []
wait_for (some n) = close_local (waited n ∷ [])

abbrev pub write_target : Option Err → List ℕ → List Action
write_target (some e) tgt = dialed true ∷ wrote tgt ∷ remote_closed ∷ []
write_target none tgt = dialed true ∷ wrote tgt ∷ relayed ∷ remote_closed ∷ []

abbrev pub dial_server : Option Err → Option Err → List ℕ → List Action
dial_server (some e) write_error tgt = dialed false ∷ []
dial_server none write_error tgt = write_target write_error tgt

-- The goroutine of `tcpLocal`, on what `getAddr` returns, the errors of Dial and of the write of the
-- target, and those of the Reads of a UDP association.
pub local_session :
    (Err → Bool) → Result (List ℕ) → Option Err → Option Err → List (Option Err) → List Action
local_session is_timeout (ok tgt) dial_error write_error waits =
    close_local (dial_server dial_error write_error tgt)
local_session is_timeout (err e) dial_error write_error waits =
    if is_associate e then wait_for (associate_wait is_timeout waits) else close_local []
local_session is_timeout panic dial_error write_error waits = crashed ∷ []

-- `getAddr` of `socksLocal` and of `tcpTun`; `tcpTun` does not listen where ParseAddr gives nil.
pub socks_addr : IpText → Bool → List ℕ → Conn → Result (List ℕ)
socks_addr t udp_enabled local c = (handshake t udp_enabled local c).0

abbrev pub fixed : Option (List ℕ) → Option (Conn → Result (List ℕ))
fixed none = none
fixed (some tgt) = some (λ c. ok tgt)

pub tunnel_addr : IpText → List ℕ → Option (Conn → Result (List ℕ))
tunnel_addr t target = fixed (parse_addr t target)

-- The goroutine of `tcpRemote`, on what ReadAddr returns and the error of Dial.
abbrev pub dial_target : Option Err → List Action
dial_target (some e) = dialed false ∷ []
dial_target none = dialed true ∷ relayed ∷ remote_closed ∷ []

pub remote_session : Result (List ℕ) → Option Err → List Action
remote_session (ok tgt) dial_error = close_local (dial_target dial_error)
remote_session (err e) dial_error = close_local []
remote_session panic dial_error = crashed ∷ []
