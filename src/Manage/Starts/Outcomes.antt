-- ===== src/Manage/Starts/Outcomes.antt =====
-- clientlib/manageAccel.go: what a start that returns no error has done, and what stopping undoes.
use go_shadowsocks.Manage.Stops.{to_int64, get_tx, get_rx, stop_tcp_udp}
use go_shadowsocks.Freconn.Counters.{reset_stat}
use go_shadowsocks.Errors.{panic, err, Result, Err, ok}
use go_shadowsocks.Manage.Starts.{
  renew, aim_tcp, set_verbose, listen_socks, listen_udp_socks, start_with, start_tcp_udp,
}
use go_shadowsocks.Client.{stop, new_client, Client}
use go_shadowsocks.Manage.{
  check_ports, is_empty, udp_connecter, tcp_connecter, check_tcp_udp, negsuc, pos, Package, World,
  ℤ,
}
use go_shadowsocks.Prelude.{
  ◌||◌, ℕ, ◌≤◌, ◌<◌, ◌≡◌, ◌≢◌, inl, inr, refl, sym, ap, Bool, true, false, Bool-cases, Option, none,
  some, List, length, arith,
}

-- The client that listens for SOCKS clients on TCP and on UDP.
abbrev pub running : ℕ → ℕ → ℕ → ℕ → ℕ → Package → Client
running outbound_id connecter pc_connecter ciph addr s =
    record (new_client s.max_conn_count s.udp_buf_size s.udp_timeout) {
      outbound_id = outbound_id;
      listener = some true;
      connecter = some connecter;
      upgrade_conn = some ciph;
      udp_pc = some true;
      pc_connect = some pc_connecter;
      upgrade_pc = some ciph;
      udp_server_addr = addr;
    }

-- A port of the range 1 to 65535, and a text that is not empty.
abbrev pub IsPort : ℤ → Type 0
IsPort (pos n) = (0 < n) × (n ≤ 65535)
IsPort (negsuc n) = ⊥

abbrev pub Filled : List ℕ → Type 0
Filled s = length s ≢ 0

-- What the outcomes were when a start returns no error, and the package variables then.
pub start_with-ok :
    (first setup : Package → Package) (checked : Option Err) (picked : Result ℕ) (tcp : Option Err)
    (resolved : Result ℕ) (udp : Option Err) (connecter pc_connecter : ℕ) (s t : Package)
    → start_with first setup checked picked tcp resolved udp connecter pc_connecter s ≡ (ok tt, t)
    → (ciph : ℕ) × (addr : ℕ) × (checked ≡ none)
      × (picked ≡ ok ciph)
      × (resolved ≡ ok addr)
      × (t
          ≡ (listen_udp_socks none addr pc_connecter ciph
              ((listen_socks none connecter ciph (setup (first s))).1)).1)
start_with-ok f g none (ok ciph) none (ok addr) none k p s t h =
    (ciph, addr, refl, refl, refl, sym (ap (λ r. r.1) h))
start_with-ok f g (some e) picked tcp resolved udp k p s t h = absurd (cc h)
start_with-ok f g none (err e) tcp resolved udp k p s t h = absurd (cc h)
start_with-ok f g none panic tcp resolved udp k p s t h = absurd (cc h)
start_with-ok f g none (ok ciph) (some e) resolved udp k p s t h = absurd (cc h)
start_with-ok f g none (ok ciph) none (err e) udp k p s t h = absurd (cc h)
start_with-ok f g none (ok ciph) none panic udp k p s t h = absurd (cc h)
start_with-ok f g none (ok ciph) none (ok addr) (some e) k p s t h = absurd (cc h)

-- A server and a port that pass the tests.
check_ports-none :
    (server_port local_port : ℤ)
    → check_ports server_port local_port ≡ none
    → IsPort server_port × IsPort local_port
unfolding check_ports
check_ports-none (pos n) (pos m) h = ground (arith, h)
check_ports-none (negsuc n) m h = absurd (cc h)
check_ports-none (pos n) (negsuc m) h = absurd (ground (arith, h))

check_tcp_udp-none :
    (server password : List ℕ) (server_port local_port : ℤ)
    → check_tcp_udp server password server_port local_port ≡ none
    → Filled server × Filled password × IsPort server_port × IsPort local_port
unfolding check_tcp_udp
check_tcp_udp-none server password p q h =
    elim (Bool-cases (is_empty server || is_empty password)) [
      | inl e ↦ absurd (ground (arith, h, e))
      | inr e ↦
          let ports = check_ports-none p q (ground (arith, h, e)) in
          (ground (arith, e), ground (arith, e), ports.0, ports.1)
    ]

module _ (w : World) (server : List ℕ) (port : ℤ) (method password : List ℕ) (local_port : ℤ)
    (verbose : Bool) where
  -- Where StartTCPUDP returns no error, the server and the password were not empty and both ports were
  -- of 1 to 65535; it has a new client, with the outbound id, that listens on TCP and on UDP and uses
  -- the picked cipher for both, towards the server that it was given; the counters are zero; and
  -- StopTCPUDP then returns no error and leaves a client that is cancelled and has both sockets closed.
  pub start_tcp_udp-ok :
      (outbound_id now : ℕ) (s t : Package)
      → start_tcp_udp w server port method password local_port verbose outbound_id s ≡ (ok tt, t)
      → (ciph : ℕ) × (addr : ℕ) × (Filled server
          × Filled password
          × IsPort port
          × IsPort local_port)
        × (w.pick method password ≡ ok ciph)
        × (w.resolve ≡ ok addr)
        × (t.client ≡ some (running outbound_id tcp_connecter udp_connecter ciph addr s))
        × (t.tcp_server ≡ (server, port))
        × (get_rx t ≡ pos 0)
        × (get_tx t ≡ pos 0)
        × ((stop_tcp_udp now t).0 ≡ none)
        × ((stop_tcp_udp now t).1.client
            ≡ some (record (running outbound_id tcp_connecter udp_connecter ciph addr s) {
              ctx_done = true;
              listener = some false;
              udp_pc = some false;
            }))
  unfolding start_tcp_udp new_client stop_tcp_udp stop get_rx get_tx to_int64 reset_stat
  start_tcp_udp-ok outbound_id now s t h =
      let (ciph, addr, checked, picked, resolved, is) =
        start_with-ok (set_verbose verbose) (λ x. aim_tcp server port (renew w.now outbound_id x)) _
          _ w.listen_tcp w.resolve w.listen_udp tcp_connecter udp_connecter s t h in
      (
        ciph,
        addr,
        check_tcp_udp-none server password port local_port checked,
        picked,
        resolved,
        ap (λ x. x.client) is,
        ap (λ x. x.tcp_server) is,
        ap get_rx is,
        ap get_tx is,
        ap (λ x. (stop_tcp_udp now x).0) is,
        ap (λ x. (stop_tcp_udp now x).1.client) is,
      )
