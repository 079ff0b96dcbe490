-- ===== src/Client/Packets/Runs.antt =====
-- The UDP relay of clientlib/packetconn.go at concrete inputs.
use go_shadowsocks.Errors.{conn_closed, eof}
use go_shadowsocks.Client.Packets.InOrder.{
  relayed_in_order, replies_in_order, at_server, from_users, replies,
}
use go_shadowsocks.Udp.Relay.{relay_client, remote_server}
use go_shadowsocks.Client.Packets.{start, remote_loop, returned, udp_local, State, timed_copy}
use go_shadowsocks.Prelude.{arith, map, some, ◌≡◌, none, [], ◌∷◌, List, ℕ}
use go_shadowsocks.Socks.Runs.{toy_text, toy_text-IsIpText, host_text, host_addr, host_parsed}

abbrev users : List (ℕ × List ℕ)
users = (7, 1 ∷ 2 ∷ []) ∷ (9, 3 ∷ []) ∷ (7, []) ∷ []

relayed_in_order_example :
    (w : List (ℕ × List ℕ)) × (s : State) × (udp_local toy_text host_text none (from_users users)
      ≡ some (w, s))
    × (map (λ o. o.1) (remote_loop (at_server w) start).0 ≡ map (λ x. (host_addr, x.1)) users)
relayed_in_order_example =
    relayed_in_order toy_text toy_text-IsIpText host_text host_addr host_parsed users start
      (omega arith, (omega arith, (omega arith, tt)))

abbrev answers : List (List ℕ × List ℕ)
answers = (host_text, 5 ∷ 6 ∷ []) ∷ (host_text, []) ∷ []

replies_in_order_example :
    ((timed_copy toy_text remote_server (replies answers eof)).1 ≡ returned eof)
    × (timed_copy toy_text relay_client (
          replies
            (map (λ p. ([], p)) (timed_copy toy_text remote_server (replies answers eof)).0)
            conn_closed)
        ≡ (map (λ x. x.1) answers, returned conn_closed))
replies_in_order_example =
    replies_in_order toy_text toy_text-IsIpText [] answers eof conn_closed
      ((host_addr, host_parsed, omega arith), ((host_addr, host_parsed, omega arith), tt))
