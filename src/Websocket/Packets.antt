-- ===== src/Websocket/Packets.antt =====
-- websocket/packetconn.go: the way of the packets from the connections to ReadFrom.
use go_shadowsocks.Websocket.Waiting.{
  reads-append, messages-append, taken_from, came_from, gone-Accounted, reads, phase-Accounted,
  still, waiting, messages, mine,
}
use go_shadowsocks.Websocket.Deadlines.{Step-Grows}
use go_shadowsocks.Errors.{Err}
use go_shadowsocks.Udp.Nat.{get}
use go_shadowsocks.Udp.Nat.Invariant.{Different}
use go_shadowsocks.Websocket.Step.{
  here, Trace, watcher_closed, worker_ended, read_failed, message_dropped, message_came,
  write_timer_fired, read_timer_fired, write_deadline_set, read_deadline_set, closed, delivered,
  dialer_chosen, offered, cancelled, read, handled, timeout_set, Step, quiet, Event,
}
use go_shadowsocks.Websocket.Invariant.{new-Inv, Trace-Inv, Inv, entries}
use go_shadowsocks.Websocket.{
  new_ws_packet_conn, set_write_deadline, set_read_deadline, close, deliver, with_dialer, send_to,
  handle_ws_conn, set_ws_timeout, stored, at, State, deleted, reading, offering, Worker,
}
use go_shadowsocks.Prelude.{
  append-nil, append_assoc, ℕ, ◌≡◌, inl, inr, refl, sym, ◌∙◌, subst, false, Bool-cases, Option,
  none, some, List, [], ◌∷◌, ◌++◌, arith,
}

-- What a step does to the packets of a peer, before Close.
Accounted : ℕ → State → Event → State → Type 0
Accounted q s e t = waiting q s.workers ++ came_from q e ≡ taken_from q e ++ waiting q t.workers

stored-Accounted :
    (q : ℕ) (s : State) (o : Option ℕ) (conn local remote : ℕ)
    → Accounted q s quiet (stored o conn local remote s).1
unfolding Accounted waiting
stored-Accounted q s (some c) conn local remote = append-nil (waiting q s.workers)
stored-Accounted q s none conn local remote =
    let it : mine q remote [] ≡ [] = ground arith in rw (it, append-nil) refl

send_to-Accounted :
    (q : ℕ) (s : State) (o : Option ℕ) (fault : Option Err) (p : List ℕ)
    → Accounted q s quiet (send_to o fault p s).2
unfolding Accounted
send_to-Accounted q s none fault p = still q s.workers s.workers refl
send_to-Accounted q s (some c) fault p = still q s.workers s.workers refl

mine_nil : (q peer : ℕ) → mine q peer [] ≡ []
mine_nil q peer = ground arith

offered-Accounted :
    (q peer conn : ℕ) (p : List ℕ) (b a : List Worker)
    → Different (entries (b ++ at peer conn (offering p) ∷ a))
    → waiting q (b ++ at peer conn (offering p) ∷ a) ++ []
      ≡ mine q peer (p ∷ []) ++ waiting q (b ++ at peer conn reading ∷ a)
offered-Accounted q peer conn p b a d =
    subst
      (λ xs.
        waiting q (b ++ at peer conn (offering p) ∷ a) ++ xs
        ≡ mine q peer (p ∷ []) ++ waiting q (b ++ at peer conn reading ∷ a))
      (mine_nil q peer)
      (phase-Accounted q peer conn (offering p) reading [] (p ∷ []) b a d (λ m. refl) refl)

came-Accounted :
    (q peer conn : ℕ) (p : List ℕ) (b a : List Worker)
    → Different (entries (b ++ at peer conn reading ∷ a))
    → waiting q (b ++ at peer conn reading ∷ a) ++ mine q peer (p ∷ [])
      ≡ [] ++ waiting q (b ++ at peer conn (offering p) ∷ a)
came-Accounted q peer conn p b a d =
    subst
      (λ xs.
        waiting q (b ++ at peer conn reading ∷ a) ++ mine q peer (p ∷ [])
        ≡ xs ++ waiting q (b ++ at peer conn (offering p) ∷ a))
      (mine_nil q peer)
      (phase-Accounted q peer conn reading (offering p) (p ∷ []) [] b a d (λ m. refl) refl)

Step-Accounted :
    (default : ℕ) (q : ℕ) (s : State) (e : Event) (t : State)
    → Step default s e t
    → Different (entries s.workers)
    → s.ctx_done ≡ false
    → Accounted q s e t
unfolding Accounted set_ws_timeout handle_ws_conn with_dialer deliver close set_read_deadline
    set_write_deadline
Step-Accounted default q _ _ _ (timeout_set s t) d c = still q s.workers s.workers refl
Step-Accounted default q _ _ _ (handled s conn local remote) d c =
    stored-Accounted q s (get remote s.conns) conn local remote
Step-Accounted default q _ _ _ (read _ _ _ _ (cancelled s e)) d c = still q s.workers s.workers refl
Step-Accounted default q _ _ _ (read _ _ _ _ (offered s b a peer conn p e)) d c =
    rw e (offered-Accounted q peer conn p b a (subst (λ ws. Different (entries ws)) e d))
Step-Accounted default q _ _ _ (dialer_chosen s) d c = still q s.workers s.workers refl
Step-Accounted default q _ _ _ (delivered s fault p addr) d c =
    send_to-Accounted q s (get addr s.conns) fault p
Step-Accounted default q _ _ _ (closed s) d c =
    still q s.workers _ (ground (arith, Bool-cases s.closed))
Step-Accounted default q _ _ _ (read_deadline_set s now t) d c = still q s.workers _ (ground arith)
Step-Accounted default q _ _ _ (write_deadline_set s now t) d c = still q s.workers _ (ground arith)
Step-Accounted default q _ _ _ (read_timer_fired s b a t e) d c = still q s.workers s.workers refl
Step-Accounted default q _ _ _ (write_timer_fired s b a t e) d c = still q s.workers s.workers refl
Step-Accounted default q _ _ _ (message_came s b a peer conn p e) d c =
    rw e (came-Accounted q peer conn p b a (subst (λ ws. Different (entries ws)) e d))
Step-Accounted default q _ _ _ (message_dropped s b a peer conn p e x) d c = absurd (cc (x, c))
Step-Accounted default q _ _ _ (read_failed s b a peer conn e) d c =
    rw (append-nil, e)
      (gone-Accounted q peer conn reading b a refl
        ∙ sym (gone-Accounted q peer conn deleted b a refl))
Step-Accounted default q _ _ _ (worker_ended s b a peer conn e) d c =
    rw (append-nil, e) (gone-Accounted q peer conn deleted b a refl)
Step-Accounted default q _ _ _ (watcher_closed s b a w e x) d c = still q s.workers s.workers refl

open_before :
    (default : ℕ) (s : State) (e : Event) (t : State)
    → Step default s e t
    → t.ctx_done ≡ false
    → s.ctx_done ≡ false
open_before default s e t st h = elim (Bool-cases s.ctx_done) [
  | inl d ↦ absurd (cc (h, (Step-Grows default s e t st).1 d))
  | inr o ↦ o
]

in_order :
    (default : ℕ) (s : State) (es : List Event) (t : State) (q : ℕ)
    → Inv s
    → waiting q s.workers ≡ []
    → Trace default s es t
    → t.ctx_done ≡ false
    → messages q es ≡ reads q es ++ waiting q t.workers
unfolding messages reads Accounted
in_order default s _ _ q h none_yet here o = sym none_yet
in_order default s _ _ q h none_yet (Trace.and_then t u es e r st) o =
    let o' = open_before default t e u st o in
    let ih = in_order default s es t q h none_yet r o' in
    let inv = Trace-Inv default s es t r h in
    let here_too : waiting q t.workers ++ came_from q e ≡ taken_from q e ++ waiting q u.workers =
      Step-Accounted default q t e u st (subst Different inv.conns_are inv.keys) o' in
    rw
      (
        messages-append q es (e ∷ []),
        reads-append q es (e ∷ []),
        append-nil,
        append-nil,
        ih,
        append_assoc,
        here_too,
        append_assoc,
      )
      refl

-- Before Close, under every interleaving on a new WSPacketConn: the packets that came from an address
-- in binary messages are, in order, those that ReadFrom took from it, followed by the one that waits
-- for ReadFrom, if any. So none is lost, doubled or overtaken on the way.
pub packets_in_order :
    (default local : ℕ) (username : List ℕ) (es : List Event) (s : State) (q : ℕ)
    → Trace default (new_ws_packet_conn local username) es s
    → s.ctx_done ≡ false
    → messages q es ≡ reads q es ++ waiting q s.workers
unfolding new_ws_packet_conn waiting
packets_in_order default local username es s q r o =
    in_order default (new_ws_packet_conn local username) es s q (new-Inv local username) refl r o
