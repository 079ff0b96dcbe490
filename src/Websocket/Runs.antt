-- ===== src/Websocket/Runs.antt =====
-- websocket/packetconn.go: runs of a WSPacketConn.
use go_shadowsocks.Websocket.Packets.{packets_in_order}
use go_shadowsocks.Errors.{buffer_too_short}
use go_shadowsocks.Websocket.Waiting.{waiting, reads, messages}
use go_shadowsocks.Websocket.Step.{
  message_came, read_deadline_set, handled, here, Trace, came, quiet,
}
use go_shadowsocks.Udp.Nat.{del, put, get}
use go_shadowsocks.Websocket.Deadlines.{close_unblocks, read_deadline_final, ReadsEnd}
use go_shadowsocks.Websocket.Invariant.{new-Inv, Trace-Inv, Inv}
use go_shadowsocks.Websocket.{
  with_dialer, packet, offering, deliver, at, close, dial_addr, connected, new_ws_packet_conn,
  set_read_deadline, Dialed, read_from, State, handle_ws_conn, write_to,
}
use go_shadowsocks.Prelude.{ℕ, ◌≡◌, refl, true, none, some, List, [], ◌∷◌, ◌++◌, arith}

abbrev hello : List ℕ
hello = 104 ∷ 105 ∷ []

abbrev fresh : State
fresh = new_ws_packet_conn 1 (117 ∷ [])

-- A connection 7 to the address 5 is taken up, and a message comes.
abbrev taken_up : State
taken_up = (handle_ws_conn 7 2 5 fresh).1

abbrev offering_one : State
offering_one = record taken_up { workers = at 5 7 (offering hello) ∷ [] }

abbrev message_run : Trace 45 fresh (quiet ∷ came 5 hello ∷ []) offering_one
unfolding handle_ws_conn new_ws_packet_conn get put
message_run =
    Trace.and_then taken_up offering_one (quiet ∷ []) (came 5 hello)
      (Trace.and_then fresh taken_up [] quiet here (handled fresh 7 2 5))
      (message_came taken_up [] [] 5 7 hello refl)

abbrev ws_inv : Inv offering_one
ws_inv =
    Trace-Inv 45 fresh (quiet ∷ came 5 hello ∷ []) offering_one message_run (new-Inv 1 (117 ∷ []))

packets_in_order_example :
    messages 5 (quiet ∷ came 5 hello ∷ [])
    ≡ reads 5 (quiet ∷ came 5 hello ∷ []) ++ waiting 5 offering_one.workers
unfolding handle_ws_conn new_ws_packet_conn get
packets_in_order_example =
    packets_in_order 45 1 (117 ∷ []) (quiet ∷ came 5 hello ∷ []) offering_one 5 message_run refl

-- A zero deadline, and then one in the future.
abbrev later : State
later = set_read_deadline 100 900 (set_read_deadline 100 0 offering_one)

read_deadline_final_example : ReadsEnd later
read_deadline_final_example =
    read_deadline_final 45 100 0 offering_one (quiet ∷ []) later (omega arith) (
      Trace.and_then (set_read_deadline 100 0 offering_one) later [] quiet here
        (read_deadline_set (set_read_deadline 100 0 offering_one) 100 900))

close_unblocks_example :
    ReadsEnd (close offering_one).1
    × ((close offering_one).0 ≡ none)
    × ((close (close offering_one).1).0 ≡ none)
close_unblocks_example = close_unblocks 45 offering_one [] (close offering_one).1 ws_inv here

abbrev dial_up : List ℕ → ℕ → ℕ → Dialed
dial_up username timeout addr = connected 9 3

-- After Close, WriteTo dials a new connection and writes to it.
write_after_close :
    (write_to (λ a. true) dial_up 45 none hello 6 (close offering_one).1).2.sent ≡ (9, hello) ∷ []
unfolding write_to dial_addr deliver close handle_ws_conn new_ws_packet_conn get put del with_dialer
write_after_close = refl

-- ReadFrom drops a packet that does not fit.
short_read : read_from 1 (packet 5 hello) offering_one ≡ ([], some 5, some buffer_too_short)
unfolding read_from handle_ws_conn new_ws_packet_conn get
short_read = refl
