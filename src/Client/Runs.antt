-- ===== src/Client/Runs.antt =====
-- clientlib/client.go and clientlib/conn.go at concrete inputs.
use go_shadowsocks.Client.Datagrams.Repeat.{serve_twice}
use go_shadowsocks.Socks.Handshake.{handshake}
use go_shadowsocks.Client.Sessions.Together.{sessions_together}
use go_shadowsocks.Client.Room.Oldest.{make_room-accepted, as_accepted, as_seen}
use go_shadowsocks.Client.Datagrams.{serve, client_request}
use go_shadowsocks.Client.Room.{oldest_from, make_room}
use go_shadowsocks.Socks.Addr.{addr_len, split_addr}
use go_shadowsocks.Udp.Nat.{del, Table, get}
use go_shadowsocks.Client.Sessions.{
  upgrade_done, connect_done, read_locked, accepted, upgraded, started, idle, Steps,
}
use go_shadowsocks.Tcp.Relay.{associate_wait}
use go_shadowsocks.Client.Sessions
use go_shadowsocks.Client.Datagrams
use go_shadowsocks.Client.Room
use go_shadowsocks.Client.Handled.{handle_conn-acts, over, opened, acts, handle_conn-connect}
use go_shadowsocks.Socks.Handshake.Requests.{handshake_request, answer, talking}
use go_shadowsocks.Socks.Runs.{toy_text, host_addr}
use go_shadowsocks.Errors.{ok, eof, Err}
use go_shadowsocks.Io.{closed, chunk, Source}
use go_shadowsocks.Client.{
  local_closed, remote_closed, relayed, unlocked, wrote, dialed, locked, handle_conn, new_client,
  reset, Net, Client,
}
use go_shadowsocks.Prelude.{
  ℕ, ◌≡◌, ◌⊎◌, inl, refl, ap, Bool, true, false, none, some, List, [], ◌∷◌, ◌++◌,
}

abbrev configured_client : Client
configured_client = reset (some 1) (some 2) 3 (some 4) (some 5) (new_client 0 65536 10)

abbrev good_net : Net
good_net = record {
  connect_error = none;
  info_error = none;
  target_error = none;
  wait_errors = none ∷ [];
}

abbrev no_timeout : Err → Bool
no_timeout e = false

-- A client that asks for the command `cmd` on "ab:80", and sends one byte more.
abbrev asks : ℕ → Source
asks cmd = chunk (5 ∷ 1 ∷ 0 ∷ 5 ∷ cmd ∷ 0 ∷ (host_addr ++ 7 ∷ [])) (closed eof)

handle_conn-connect_example :
    handle_conn no_timeout toy_text true [] configured_client
      (some 258)
      good_net
      (talking (asks 1) [])
    ≡ locked
      ∷ dialed true
      ∷ wrote (1 ∷ 2 ∷ 0 ∷ 0 ∷ [])
      ∷ wrote host_addr
      ∷ unlocked
      ∷ relayed
      ∷ remote_closed
      ∷ local_closed
      ∷ []
unfolding reset new_client split_addr addr_len
handle_conn-connect_example =
    handle_conn-connect no_timeout toy_text true [] configured_client 258 good_net (asks 1) 5 5 0
      (0 ∷ []) host_addr (7 ∷ []) 1 2 refl refl refl refl refl refl refl

answered : (handshake toy_text true [] (talking (asks 1) [])).0 ≡ ok host_addr
unfolding answer split_addr addr_len
answered =
    let (s', run, left) =
      handshake_request toy_text true [] (asks 1) 5 5 1 0 (0 ∷ []) host_addr (7 ∷ []) [] refl
        refl in
    ap (λ r. r.0) run

handle_conn-acts_example :
    acts
      (handle_conn no_timeout toy_text true [] configured_client
        (some 258)
        good_net
        (talking (asks 1) []))
      (opened 3)
    ≡ some (over 3)
unfolding associate_wait
handle_conn-acts_example =
    handle_conn-acts no_timeout toy_text true [] configured_client 258 good_net
      (talking (asks 1) []) 3 (λ p. cc (answered, p)) (λ e. cc e)

abbrev three : Table
three = (11, 50) ∷ (12, 40) ∷ (13, 60) ∷ []

make_room_runs : make_room three ≡ (some 12, (11, 50) ∷ (13, 60) ∷ [])
unfolding make_room oldest_from del
make_room_runs = refl

-- The connection 12 is the busiest, and is closed all the same.
abbrev busy : List Room.Oldest.Session
busy = (11, 50, []) ∷ (12, 40, (70, none) ∷ (80, none) ∷ []) ∷ []

abbrev datagram : List ℕ
datagram = 0 ∷ 0 ∷ 0 ∷ (host_addr ++ 9 ∷ [])

serve_twice_example :
    serve 0 ((5, true, datagram) ∷ (5, true, datagram) ∷ (6, true, datagram) ∷ []) Datagrams.start
    ≡ ((0, client_request 0 datagram) ∷ (0, client_request 0 datagram) ∷ [], none)
unfolding get
serve_twice_example =
    serve_twice 0 5 datagram datagram true ((6, true, datagram) ∷ []) Datagrams.start refl refl

-- Two Resets are given (1, 2) and (3, 4).
abbrev Pairs : ℕ → ℕ → Type 0
Pairs c u = ((c ≡ 1) × (u ≡ 2)) ⊎ ((c ≡ 3) × (u ≡ 4))

abbrev one_session : Sessions.State
one_session = record (started 1 2) { readers = 1; sessions = upgraded 1 2 ∷ [] }

abbrev one_run : Steps Pairs (started 1 2) one_session
one_run =
    Sessions.and_then _ one_session
      (Sessions.and_then _ _
        (Sessions.and_then _ _
          (Sessions.and_then (started 1 2) _ Sessions.here (accepted (started 1 2)))
          (read_locked _ [] [] refl refl))
        (connect_done _ [] [] refl))
      (upgrade_done _ [] [] 1 refl)

sessions_together_example : Pairs 1 2 × (one_session.writer ≡ idle)
sessions_together_example =
    sessions_together Pairs 1 2 one_session [] [] 1 2 (inl (refl, refl)) one_run refl
