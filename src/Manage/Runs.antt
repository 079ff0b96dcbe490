-- ===== src/Manage/Runs.antt =====
-- clientlib/manageAccel.go at concrete inputs.
use go_shadowsocks.Manage.Starts.Outcomes.{start_tcp_udp-ok, IsPort, running, Filled}
use go_shadowsocks.Manage.Starts.Failures.{start_websocket_mpx-stop}
use go_shadowsocks.Manage.Stops.{stop_tcp_udp, get_tx, get_rx, stop_websocket_mpx}
use go_shadowsocks.Freconn.Counters.{new_stat}
use go_shadowsocks.Errors.{server_port_range, err, env, ok}
use go_shadowsocks.Manage.{
  udp_connecter, ws_connecter, tcp_connecter, mpx_connecter, pos, check_websocket, check_tcp_udp,
  World, Package, check_ports,
}
use go_shadowsocks.Manage.Starts.{reset_tcp_udp, start_tcp_udp, start_websocket_mpx}
use go_shadowsocks.Prelude.{ℕ, ◌≡◌, ◌≢◌, refl, true, false, none, some, List, [], ◌∷◌}

abbrev world : World
world = record {
  pick = λ method password. ok 9;
  listen_tcp = none;
  listen_udp = none;
  resolve = ok 4;
  mpx_start = λ n. some (env 3);
  now = 100;
}

abbrev some_server : List ℕ
some_server = 104 ∷ []

abbrev initial : Package
initial = record {
  verbose = true;
  udp_timeout = 10;
  udp_buf_size = 65536;
  ws_timeout = 10;
  max_conn_count = 0;
  client = none;
  stat = new_stat 0;
  tcp_server = ([], pos 0);
  tcp_stat = false;
  tcp_local = none;
  local_ip = [];
  mc = none;
  udp_enabled = false;
}

abbrev running_package : Package
running_package =
    (start_tcp_udp world some_server (pos 443) [] some_server (pos 1080) false 0 initial).1

start_tcp_udp-ok_example :
    (ciph : ℕ) × (addr : ℕ) × (Filled some_server
      × Filled some_server
      × IsPort (pos 443)
      × IsPort (pos 1080))
    × (world.pick [] some_server ≡ ok ciph)
    × (world.resolve ≡ ok addr)
    × (running_package.client ≡ some (running 0 tcp_connecter udp_connecter ciph addr initial))
    × (running_package.tcp_server ≡ (some_server, pos 443))
    × (get_rx running_package ≡ pos 0)
    × (get_tx running_package ≡ pos 0)
    × ((stop_tcp_udp 7 running_package).0 ≡ none)
    × ((stop_tcp_udp 7 running_package).1.client
        ≡ some (record (running 0 tcp_connecter udp_connecter ciph addr initial) {
          ctx_done = true;
          listener = some false;
          udp_pc = some false;
        }))
unfolding start_tcp_udp check_tcp_udp check_ports
start_tcp_udp-ok_example =
    start_tcp_udp-ok world some_server (pos 443) [] some_server (pos 1080) false 0 7 initial
      running_package refl

abbrev no_udp_world : World
no_udp_world = record world { listen_udp = some (env 2) }

abbrev half_started : Package
half_started =
    (start_tcp_udp no_udp_world some_server (pos 443) [] some_server (pos 1080) false 0 initial).1

abbrev unresolved : World
unresolved = record world { resolve = err (env 5) }

abbrev half_reset : Package
half_reset =
    (reset_tcp_udp unresolved (105 ∷ []) (pos 8443) [] some_server (pos 1080) false
      running_package).1

abbrev mpx_package : Package
mpx_package =
    (start_websocket_mpx world some_server (pos 443) [] some_server (pos 1080) false some_server
      some_server 6 (pos 0) initial).1

start_websocket_mpx-stop_example :
    (ciph : ℕ) × ((stop_websocket_mpx 7 mpx_package).1.client
      ≡ some (record (running 0 mpx_connecter ws_connecter ciph 6 initial) {
        ctx_done = true;
        listener = some false;
        udp_pc = some false;
      }))
    × ((stop_websocket_mpx 7 mpx_package).1.mc ≡ some false)
    × ((stop_websocket_mpx 7 mpx_package).0 ≢ none)
unfolding start_websocket_mpx check_websocket check_ports
start_websocket_mpx-stop_example =
    start_websocket_mpx-stop world some_server (pos 443) [] some_server (pos 1080) false some_server
      some_server 6 7 (pos 0) initial mpx_package refl

-- Port 0 is refused, although the message says "between 0 and 65535".
port_zero : check_ports (pos 0) (pos 1080) ≡ some server_port_range
unfolding check_ports
port_zero = refl
