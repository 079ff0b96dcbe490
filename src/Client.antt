-- ===== src/Client.antt =====
-- clientlib/client.go and clientlib/conn.go: `Client`. Connecters, upgrades and addresses are
-- numbers; package net stands outside.
pub mod Handled
pub mod Room
pub mod Datagrams
pub mod Sessions
pub mod Packets
pub mod Dialers
pub mod Runs
use go_shadowsocks.Prelude.{
  ℕ, zero, suc, ◌+◌, ◌/◌, ◌%◌, ◌^◌, Bool, true, false, ◌&&◌, List, [], ◌∷◌, ◌++◌, Option, none,
  some, length, take, drop, ltb, ◌==◌, if◌then◌else◌,
}
use go_shadowsocks.Errors.{Err, Result, ok, err, panic, map_result}
use go_shadowsocks.Io.{Source, Conn}
use go_shadowsocks.Socks.Text.{IpText}
use go_shadowsocks.Socks.Addr.{info_udp_associate}
use go_shadowsocks.Socks.Handshake.{handshake}
use go_shadowsocks.Tcp.Relay.{associate_wait}
use go_shadowsocks.Udp.Nat.{Table, get, put}

-- `Client`. `listener` and `udp_pc` say whether the listening sockets are nil, and else whether they
-- are open; the connecters and the upgrades may be nil.
pub record Client : Type 0 where
  pub listener : Option Bool
  pub udp_pc : Option Bool
  pub max_conn_count : ℕ
  pub udp_timeout : ℕ
  pub udp_buf_size : ℕ
  pub udp_server_addr : ℕ
  pub connecter : Option ℕ
  pub upgrade_conn : Option ℕ
  pub pc_connect : Option ℕ
  pub upgrade_pc : Option ℕ
  pub ctx_done : Bool
  pub outbound_id : ℕ

-- `NewClient`.
unfoldable pub new_client : ℕ → ℕ → ℕ → Client
new_client max_conn_count udp_buf_size udp_timeout = record {
  listener = none;
  udp_pc = none;
  max_conn_count = max_conn_count;
  udp_timeout = udp_timeout;
  udp_buf_size = udp_buf_size;
  udp_server_addr = 0;
  connecter = none;
  upgrade_conn = none;
  pc_connect = none;
  upgrade_pc = none;
  ctx_done = false;
  outbound_id = 0;
}

-- What Close of an open or a closed socket returns; 1 stands for net.ErrClosed.
abbrev pub close_socket : Option Bool → Option Err × Option Bool
close_socket none = (none, none)
close_socket (some true) = (none, some false)
close_socket (some false) = (some (Err.env 1), some false)

-- `Stop`: the first error ends it.
abbrev pub stop_udp : Option Err × Option Bool → Client → Option Err × Client
stop_udp (e, pc) c = (e, record c { udp_pc = pc })

abbrev pub stop_tcp : Option Err × Option Bool → Client → Option Err × Client
stop_tcp (some e, l) c = (some e, record c { listener = l })
stop_tcp (none, l) c = stop_udp (close_socket c.udp_pc) (record c { listener = l })

unfoldable pub stop : Client → Option Err × Client
stop c = stop_tcp (close_socket c.listener) (record c { ctx_done = true })

-- `Reset`, once it has both locks.
unfoldable pub reset : Option ℕ → Option ℕ → ℕ → Option ℕ → Option ℕ → Client → Client
reset connecter upgrade_conn udp_server_addr pc_connect upgrade_pc c = record c {
  connecter = connecter;
  upgrade_conn = upgrade_conn;
  udp_server_addr = udp_server_addr;
  pc_connect = pc_connect;
  upgrade_pc = upgrade_pc;
}

-- What handleConn does, in order: `locked` and `unlocked` are RLock and RUnlock of connResetRLock,
-- `dialed` is Connect with the connecter and whether it succeeds, `wrote` a Write to the upgraded
-- connection, `waited` the calls of Read of a UDP association, `crashed` a nil `client`.
pub data Action : Type 0 where
  locked : Action
  unlocked : Action
  dialed : Bool → Action
  wrote : List ℕ → Action
  relayed : Action
  waited : ℕ → Action
  remote_closed : Action
  local_closed : Action
  crashed : Action

-- What the network gives to a session: the errors of Connect and of the two writes, and of the Reads
-- of a UDP association, which is given an empty buffer.
pub record Net : Type 0 where
  pub connect_error : Option Err
  pub info_error : Option Err
  pub target_error : Option Err
  pub wait_errors : List (Option Err)

-- The four bytes in front: the outbound id as a big-endian uint16, and two zeros.
abbrev pub transip_info : ℕ → List ℕ
transip_info id = (id % 2 ^ 16 / 256) ∷ (id % 256) ∷ 0 ∷ 0 ∷ []

-- The write of the target, under the lock; then relay without it.
abbrev pub send_target : Option Err → List ℕ → List Action
send_target (some e) tgt = wrote tgt ∷ unlocked ∷ remote_closed ∷ []
send_target none tgt = wrote tgt ∷ unlocked ∷ relayed ∷ remote_closed ∷ []

abbrev pub after_info : Option Err → Net → List ℕ → List Action
after_info (some e) net tgt = unlocked ∷ remote_closed ∷ []
after_info none net tgt = send_target net.target_error tgt

-- The outbound id of the package variable `client`, which is nil where no Start function was called.
abbrev pub send_info : Option ℕ → Net → List ℕ → List Action
send_info none net tgt = crashed ∷ []
send_info (some id) net tgt =
    if id == 0
    then send_target net.target_error tgt
    else wrote (transip_info id) ∷ after_info net.info_error net tgt

abbrev pub connect : Option Err → Option ℕ → Net → List ℕ → List Action
connect (some e) id net tgt = locked ∷ dialed false ∷ unlocked ∷ []
connect none id net tgt = locked ∷ dialed true ∷ send_info id net tgt

-- Where the association goes on for ever nothing follows.
abbrev pub wait_for : Option ℕ → List Action
wait_for none = waited 0 ∷ []
wait_for (some n) = waited n ∷ local_closed ∷ []

abbrev pub is_associate : Err → Bool
is_associate (Err.socks n) = n == 9
is_associate e = false

-- `if c.connecter == nil || c.upgradeConn == nil { return }`.
abbrev pub if_configured : Option ℕ → Option ℕ → List Action → List Action
if_configured none upgrade rest = local_closed ∷ []
if_configured (some connecter) none rest = local_closed ∷ []
if_configured (some connecter) (some upgrade) rest = rest

module _ (is_timeout : Err → Bool) where
  abbrev pub after_handshake : Result (List ℕ) → Option ℕ → Net → List Action
  after_handshake (ok tgt) id net = connect net.connect_error id net tgt ++ local_closed ∷ []
  after_handshake (err e) id net =
      if is_associate e
      then wait_for (associate_wait is_timeout net.wait_errors)
      else local_closed ∷ []
  after_handshake panic id net = crashed ∷ []

  -- `handleConn` on a client's connection.
  pub handle_conn : IpText → Bool → List ℕ → Client → Option ℕ → Net → Conn → List Action
  handle_conn t udp_enabled local c id net lc =
      if_configured c.connecter c.upgrade_conn
        (after_handshake (handshake t udp_enabled local lc).0 id net)
