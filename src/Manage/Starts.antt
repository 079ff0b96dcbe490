-- ===== src/Manage/Starts.antt =====
-- clientlib/manageAccel.go: the functions that start a session, and ResetTCPUDP.
pub mod Outcomes
pub mod Failures
use go_shadowsocks.Freconn.Counters.{reset_stat}
use go_shadowsocks.Prelude.{◌==◌, none, true, some, if◌then◌else◌, List, ℕ, Bool, Option}
use go_shadowsocks.Errors.{nil_client, Err, M, ◌>>=◌, ◌>>◌, return, fail, Result, ok, err, panic}
use go_shadowsocks.Client.{Client, new_client, reset}
use go_shadowsocks.Manage.{
  udp_connecter, ws_connecter, tcp_connecter, mpx_connecter, check_websocket, check_tcp_udp,
  Package, World, ℤ, pos, negsuc,
}

-- Each function ends at its first error.
abbrev pub modify : (Package → Package) → M Package (Unit {0})
modify f s = (ok tt, f s)

abbrev pub guard : Option Err → M Package (Unit {0})
guard none s = (ok tt, s)
guard (some e) s = (err e, s)

abbrev pub lift : {A : Type 0} → Result A → M Package A
lift r s = (r, s)

abbrev pub map_client : (Client → Client) → Option Client → Option Client
map_client f none = none
map_client f (some c) = some (f c)

abbrev pub on_client : (Client → Client) → Package → Package
on_client f s = record s { client = map_client f s.client }

abbrev pub set_verbose : Bool → Package → Package
set_verbose v s = record s { verbose = v }

-- `client.StartsocksConnLocal`, whose Accept loop goes on as a goroutine.
abbrev pub no_tcp : Client → Client
no_tcp c = record c { listener = none }

abbrev pub with_tcp : ℕ → ℕ → Client → Client
with_tcp connecter ciph c = record c {
  listener = some true;
  connecter = some connecter;
  upgrade_conn = some ciph;
}

abbrev pub listen_socks : Option Err → ℕ → ℕ → M Package (Unit {0})
listen_socks (some e) connecter ciph s = (err e, on_client no_tcp s)
listen_socks none connecter ciph s = (ok tt, on_client (with_tcp connecter ciph) s)

-- `client.udpSocksLocal`.
abbrev pub no_udp : Client → Client
no_udp c = record c { udp_pc = none }

abbrev pub with_udp : ℕ → ℕ → ℕ → Client → Client
with_udp addr connecter ciph c = record c {
  udp_pc = some true;
  pc_connect = some connecter;
  upgrade_pc = some ciph;
  udp_server_addr = addr;
}

abbrev pub listen_udp_socks : Option Err → ℕ → ℕ → ℕ → M Package (Unit {0})
listen_udp_socks (some e) addr connecter ciph s = (err e, on_client no_udp s)
listen_udp_socks none addr connecter ciph s = (ok tt, on_client (with_udp addr connecter ciph) s)

-- `client = NewClient(…)`, `socks.UDPEnabled = true` and `stat.Reset()`.
abbrev pub renew : ℕ → ℕ → Package → Package
renew now outbound_id s = record s {
  udp_enabled = true;
  client = some (record (new_client s.max_conn_count s.udp_buf_size s.udp_timeout) {
    outbound_id = outbound_id;
  });
  stat = reset_stat now s.stat;
}

abbrev pub aim_tcp : List ℕ → ℤ → Package → Package
aim_tcp server port s = record s { tcp_server = (server, port); tcp_stat = true }

-- `StartTCPUDP`, on the outcome of the tests, the cipher, and what the network answers.
abbrev pub start_with :
    (Package → Package)
    → (Package → Package)
    → Option Err
    → Result ℕ
    → Option Err
    → Result ℕ
    → Option Err
    → ℕ
    → ℕ
    → M Package (Unit {0})
start_with first setup checked picked tcp resolved udp connecter pc_connecter = do
  modify first
  guard checked
  ciph ← lift picked
  modify setup
  listen_socks tcp connecter ciph
  addr ← lift resolved
  listen_udp_socks udp addr pc_connecter ciph

abbrev pub missing_client : Option Client → Option Err
missing_client none = some nil_client
missing_client (some c) = none

-- `if connCount <= 0 { connCount = 2 }`.
abbrev pub conn_count : ℤ → ℕ
conn_count (pos n) = if n == 0 then 2 else n
conn_count (negsuc n) = 2

-- NewMpxConnecter: `mc` is set whatever error it returns.
abbrev pub new_mpx : Option Err → Package → Package
new_mpx none s = record s { mc = some true }
new_mpx (some e) s = record s { mc = some true }

module _ (w : World) (server : List ℕ) (port : ℤ) (method password : List ℕ) (local_port : ℤ)
    (verbose : Bool) where
  -- `StartTCPUDP`.
  unfoldable pub start_tcp_udp : ℕ → M Package (Unit {0})
  start_tcp_udp outbound_id =
      start_with (set_verbose verbose) (λ s. aim_tcp server port (renew w.now outbound_id s))
        (check_tcp_udp server password port local_port) (w.pick method password) w.listen_tcp
        w.resolve w.listen_udp tcp_connecter udp_connecter

  -- `ResetTCPUDP`.
  abbrev pub reset_with : Option Err → Option Err → Result ℕ → Result ℕ → M Package (Unit {0})
  reset_with no_client checked picked resolved = do
    modify (set_verbose verbose)
    guard no_client
    guard checked
    ciph ← lift picked
    modify
        (λ s. aim_tcp server port (record s { udp_enabled = true; stat = reset_stat w.now s.stat }))
    addr ← lift resolved
    modify
        (on_client (reset (some tcp_connecter) (some ciph) addr (some udp_connecter) (some ciph)))

  unfoldable pub reset_tcp_udp : M Package (Unit {0})
  reset_tcp_udp s =
      reset_with (missing_client s.client) (check_tcp_udp server password port local_port)
        (w.pick method password) w.resolve s

  -- `StartWebsocket`, with the number of the WSAddr of the server and the URL.
  unfoldable pub start_websocket : List ℕ → List ℕ → ℕ → M Package (Unit {0})
  start_websocket url username ws_addr =
      start_with (set_verbose verbose) (renew w.now 0)
        (check_websocket server url username password port local_port) (w.pick method password)
        w.listen_tcp (ok ws_addr) w.listen_udp ws_connecter ws_connecter

  -- `StartWebsocketMpx`: the error of NewMpxConnecter is overwritten by that of StartsocksConnLocal.
  unfoldable pub start_websocket_mpx : List ℕ → List ℕ → ℕ → ℤ → M Package (Unit {0})
  start_websocket_mpx url username ws_addr count =
      start_with (set_verbose verbose)
        (λ s. new_mpx (w.mpx_start (conn_count count)) (renew w.now 0 s))
        (check_websocket server url username password port local_port) (w.pick method password)
        w.listen_tcp (ok ws_addr) w.listen_udp mpx_connecter ws_connecter
