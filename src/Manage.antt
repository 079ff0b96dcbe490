-- ===== src/Manage.antt =====
-- clientlib/manageAccel.go, and the connecters of clientlib/tcp.go: the functions that an application
-- calls. The package variables are a record; what the network and PickCipher answer is an argument.
pub mod Starts
pub mod Stops
pub mod Tunnels
pub mod Runs
use go_shadowsocks.Prelude.{
  ◌*◌, ℕ, ◌-◌, ◌^◌, Bool, true, false, ◌||◌, List, [], ◌∷◌, Option, none, some, length, ltb, leb,
  ◌==◌, if◌then◌else◌,
}
use go_shadowsocks.Errors.{
  Err, empty_argument, server_port_range, local_port_range, nil_client, not_a_client, Result, ok,
  err, panic,
}
use go_shadowsocks.Freconn.Counters.{Stat, reset_stat}
use go_shadowsocks.Client.{Client, new_client, stop, reset}
use go_shadowsocks.Strings.{split}

-- An int.
pub data ℤ : Type 0 where
  pos : ℕ → ℤ
  negsuc : ℕ → ℤ

-- The package variables: the fields of `config`, `client`, `stat`, the fields of `tcpConnecter` (the
-- server, whether Stat is set, the local address), `localIP`, `mc` (whether its pool is open), and
-- socks.UDPEnabled. An address is a number.
pub record Package : Type 0 where
  pub verbose : Bool
  pub udp_timeout : ℕ
  pub udp_buf_size : ℕ
  pub ws_timeout : ℕ
  pub max_conn_count : ℕ
  pub client : Option Client
  pub stat : Stat
  pub tcp_server : List ℕ × ℤ
  pub tcp_stat : Bool
  pub tcp_local : Option ℕ
  pub local_ip : List ℕ
  pub mc : Option Bool
  pub udp_enabled : Bool

-- What the calls of one of the functions answer: PickCipher with the method, no key and the password
-- (ciphers are numbers), the two listening sockets, ResolveUDPAddr, the start of the mpx pool, and the
-- clock. Errors of the network are passed on.
pub record World : Type 0 where
  pub pick : List ℕ → List ℕ → Result ℕ
  pub listen_tcp : Option Err
  pub listen_udp : Option Err
  pub resolve : Result ℕ
  pub mpx_start : ℕ → Option Err
  pub now : ℕ

-- The connecters: `tcpConnecter`, a new WSConnecter, `mc`; and `UDPConnecter`.
abbrev pub tcp_connecter : ℕ
tcp_connecter = 0

abbrev pub ws_connecter : ℕ
ws_connecter = 1

abbrev pub mpx_connecter : ℕ
mpx_connecter = 2

abbrev pub udp_connecter : ℕ
udp_connecter = 3

-- `config.WSTimeout = time.Duration(timeout) * time.Millisecond`, in nanoseconds.
unfoldable pub set_ws_timeout : ℤ → Package → Package
set_ws_timeout (pos n) s = if ltb 0 n then record s { ws_timeout = n * 1_000_000 } else s
set_ws_timeout (negsuc n) s = s

unfoldable pub set_max_conn_count : ℤ → Package → Package
set_max_conn_count (pos n) s = record s { max_conn_count = n }
set_max_conn_count (negsuc n) s = record s { max_conn_count = 0 }

-- `SetLocalIP`, on the answer of ResolveTCPAddr.
unfoldable pub set_local_ip : List ℕ → Result ℕ → Package → Option Err × Package
set_local_ip ip (ok addr) s = (none, record s { tcp_local = some addr; local_ip = ip })
set_local_ip ip (err e) s = (some e, s)
set_local_ip ip panic s = (none, s)

-- The tests of a port and of the arguments.
abbrev pub bad_port : ℤ → Bool
bad_port (pos n) = leb n 0 || ltb 65535 n
bad_port (negsuc n) = true

abbrev pub is_empty : List ℕ → Bool
is_empty s = length s == 0

unfoldable pub check_ports : ℤ → ℤ → Option Err
check_ports server_port local_port =
    if bad_port server_port
    then some server_port_range
    else if bad_port local_port
    then some local_port_range
    else none

unfoldable pub check_tcp_udp : List ℕ → List ℕ → ℤ → ℤ → Option Err
check_tcp_udp server password server_port local_port =
    if is_empty server || is_empty password
    then some empty_argument
    else check_ports server_port local_port

unfoldable pub check_websocket : List ℕ → List ℕ → List ℕ → List ℕ → ℤ → ℤ → Option Err
check_websocket server url username password server_port local_port =
    if is_empty server || is_empty url || is_empty username || is_empty password
    then some empty_argument
    else check_ports server_port local_port
