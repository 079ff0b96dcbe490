-- ===== src/Websocket/Invariant.antt =====
-- websocket/packetconn.go: what stays true of a WSPacketConn under every interleaving.
use go_shadowsocks.Udp.Nat.Invariant.{
  del-append, Different-middle, del-Free, get-none-Free, Different,
}
use go_shadowsocks.Errors.{Err}
use go_shadowsocks.Udp.Nat.{del, get, Table, put}
use go_shadowsocks.Websocket.Step.{
  watcher_closed, worker_ended, read_failed, message_dropped, message_came, write_timer_fired,
  read_timer_fired, write_deadline_set, read_deadline_set, closed, delivered, dialer_chosen, read,
  offered, handled, here, cancelled, and_then, timeout_set, Step, Ready, Trace, Event,
}
use go_shadowsocks.Websocket.{
  cancel_all, deleted, reading, at, offering, stored, set_write_deadline, set_read_deadline, close,
  send_to, deliver, with_dialer, handle_ws_conn, Select, State, Phase, set_ws_timeout, Worker,
  new_ws_packet_conn,
}
use go_shadowsocks.Prelude.{
  inr, inl, leb, Bool-cases, subst, some, refl, [], ◌++◌, Option-cases, false, arith, true, none,
  ◌≡◌, ◌≢◌, ◌∷◌, Option, ℕ, List, ap, ◌∙◌, sym,
}

-- The entry that a goroutine still has in the map.
abbrev pub entry_of : Phase → ℕ × ℕ → Table → Table
entry_of reading e m = e ∷ m
entry_of (offering p) e m = e ∷ m
entry_of deleted e m = m

unfoldable pub entries : List Worker → Table
entries [] = []
entries (w ∷ ws) = entry_of w.phase (w.peer, w.conn) (entries ws)

-- The map holds exactly the connections that a goroutine reads, under different addresses; the flag
-- `closed` is never set; the contexts below `ctx` are cancelled with it; there is a dialer.
pub record Inv (s : State) : Type 0 where
  pub conns_are : s.conns ≡ entries s.workers
  pub keys : Different s.conns
  pub not_closed : s.closed ≡ false
  pub below : s.ctx_done ≡ true → (s.read_done ≡ true) × (s.write_done ≡ true)
  pub has_dialer : s.dailer ≢ none

entry_of-append :
    (ph : Phase) (e : ℕ × ℕ) (m m' : Table) → entry_of ph e (m ++ m') ≡ entry_of ph e m ++ m'
entry_of-append reading e m m' = refl
entry_of-append (offering p) e m m' = refl
entry_of-append deleted e m m' = refl

pub entries-append : (ws vs : List Worker) → entries (ws ++ vs) ≡ entries ws ++ entries vs
unfolding entries
entries-append [] vs = refl
entries-append (w ∷ ws) vs =
    rw (entries-append ws vs) (entry_of-append w.phase (w.peer, w.conn) (entries ws) (entries vs))

-- A goroutine that only changes what it offers keeps its entry.
entries_same :
    (b a : List Worker) (w v : Worker)
    → ((m : Table) → entry_of w.phase (w.peer, w.conn) m ≡ entry_of v.phase (v.peer, v.conn) m)
    → entries (b ++ w ∷ a) ≡ entries (b ++ v ∷ a)
unfolding entries
entries_same b a w v h =
    entries-append b (w ∷ a)
    ∙ ap (◌++◌ (entries b)) (h (entries a))
    ∙ sym (entries-append b (v ∷ a))

pub new-Inv : (local : ℕ) (username : List ℕ) → Inv (new_ws_packet_conn local username)
unfolding new_ws_packet_conn entries
new-Inv local username = record {
  conns_are = refl;
  keys = tt;
  not_closed = refl;
  below = λ e. cc;
  has_dialer = λ e. cc;
}

stored-Inv :
    (s : State) (o : Option ℕ) (conn local remote : ℕ)
    → get remote s.conns ≡ o
    → Inv s
    → Inv (stored o conn local remote s).1
unfolding put entries
stored-Inv s none conn local remote e h =
    let free = get-none-Free remote s.conns e in
    let same = del-Free remote s.conns free in
    record {
      conns_are = ap (◌∷◌ (remote, conn)) (same ∙ h.conns_are);
      keys = rw same (free, h.keys);
      not_closed = h.not_closed;
      below = h.below;
      has_dialer = h.has_dialer;
    }
stored-Inv s (some c) conn local remote e h = record {
  conns_are = h.conns_are;
  keys = h.keys;
  not_closed = h.not_closed;
  below = h.below;
  has_dialer = h.has_dialer;
}

send_to-Inv :
    (s : State) (o : Option ℕ) (fault : Option Err) (p : List ℕ)
    → Inv s
    → Inv (send_to o fault p s).2
send_to-Inv s none fault p h = h
send_to-Inv s (some c) fault p h = record {
  conns_are = h.conns_are;
  keys = h.keys;
  not_closed = h.not_closed;
  below = h.below;
  has_dialer = h.has_dialer;
}

-- Steps that leave the map and the goroutines alone.
kept-Inv :
    (s t : State)
    → t.conns ≡ s.conns
    → t.workers ≡ s.workers
    → t.closed ≡ s.closed
    → (t.ctx_done ≡ true → (t.read_done ≡ true) × (t.write_done ≡ true))
    → t.dailer ≢ none
    → Inv s
    → Inv t
kept-Inv s t m w c b d h = record {
  conns_are = cc (m, w, h.conns_are);
  keys = rw m h.keys;
  not_closed = cc (c, h.not_closed);
  below = b;
  has_dialer = d;
}

-- A goroutine goes on to another phase that has the same entry.
phase-Inv :
    (s : State) (b a : List Worker) (w v : Worker)
    → s.workers ≡ b ++ w ∷ a
    → ((m : Table) → entry_of w.phase (w.peer, w.conn) m ≡ entry_of v.phase (v.peer, v.conn) m)
    → Inv s
    → Inv (record s { workers = b ++ v ∷ a })
phase-Inv s b a w v e same h = record {
  conns_are = h.conns_are ∙ ap entries e ∙ entries_same b a w v same;
  keys = h.keys;
  not_closed = h.not_closed;
  below = h.below;
  has_dialer = h.has_dialer;
}

failed-Inv :
    (s : State) (b a : List Worker) (peer conn : ℕ)
    → s.workers ≡ b ++ at peer conn reading ∷ a
    → Inv s
    → Inv (record s { conns = (del peer s.conns).1; workers = b ++ at peer conn deleted ∷ a })
unfolding entries
failed-Inv s b a peer conn e h =
    let was : s.conns ≡ entries b ++ (peer, conn) ∷ entries a =
      h.conns_are ∙ ap entries e ∙ entries-append b (at peer conn reading ∷ a) in
    let (free, rest) =
      Different-middle (entries b) peer conn (entries a) (subst Different was h.keys) in
    let gone : del peer s.conns ≡ (some conn, entries b ++ entries a) =
      ap (del peer) was ∙ del-append peer conn (entries b) (entries a) free in
    record {
      conns_are = ap (λ r. r.1) gone ∙ sym (entries-append b (at peer conn deleted ∷ a));
      keys = rw gone rest;
      not_closed = h.not_closed;
      below = h.below;
      has_dialer = h.has_dialer;
    }

ended-Inv :
    (s : State) (b a : List Worker) (peer conn : ℕ)
    → s.workers ≡ b ++ at peer conn deleted ∷ a
    → Inv s
    → Inv (record s { hung_up = conn ∷ s.hung_up; workers = b ++ a })
unfolding entries
ended-Inv s b a peer conn e h = record {
  conns_are =
      h.conns_are
      ∙ ap entries e
      ∙ entries-append b (at peer conn deleted ∷ a)
      ∙ sym (entries-append b a);
  keys = h.keys;
  not_closed = h.not_closed;
  below = h.below;
  has_dialer = h.has_dialer;
}

Ready-Inv : (s : State) (c : Select) (t : State) → Ready s c t → Inv s → Inv t
Ready-Inv _ _ _ (cancelled s e) h = h
Ready-Inv _ _ _ (offered s b a peer conn p e) h =
    phase-Inv s b a (at peer conn (offering p)) (at peer conn reading) e (λ m. refl) h

timeout_some : (t : ℕ) (s : State) → (set_ws_timeout t s).dailer ≢ none
unfolding set_ws_timeout
timeout_some t s e = ground (arith, e, Option-cases s.dailer)

pub close_lem : (s : State) → s.closed ≡ false → close s ≡ (none, cancel_all s)
unfolding close
close_lem s e = ground (arith, e)

-- Every step keeps the invariant.
pub Step-Inv :
    (default : ℕ) (s : State) (e : Event) (t : State) → Step default s e t → Inv s → Inv t
unfolding set_ws_timeout handle_ws_conn with_dialer deliver set_read_deadline set_write_deadline
Step-Inv default _ _ _ (timeout_set s t) h =
    kept-Inv s _ refl refl refl h.below (timeout_some t s) h
Step-Inv default _ _ _ (handled s conn local remote) h =
    stored-Inv s (get remote s.conns) conn local remote refl h
Step-Inv default _ _ _ (read s t c e r) h = Ready-Inv s c t r h
Step-Inv default _ _ _ (dialer_chosen s) h = kept-Inv s _ refl refl refl h.below (λ e. cc e) h
Step-Inv default _ _ _ (delivered s fault p addr) h = send_to-Inv s (get addr s.conns) fault p h
Step-Inv default _ _ _ (closed s) h =
    subst Inv (sym (ap (λ r. r.1) (close_lem s h.not_closed)))
      (kept-Inv s (cancel_all s) refl refl refl (λ e. (refl, refl)) h.has_dialer h)
Step-Inv default _ _ _ (read_deadline_set s now t) h = elim (Bool-cases (leb t now)) [
  | inl e ↦ rw e (kept-Inv s _ refl refl refl (λ d. (refl, (h.below d).1)) h.has_dialer h)
  | inr e ↦ rw e (kept-Inv s _ refl refl refl h.below h.has_dialer h)
]
Step-Inv default _ _ _ (write_deadline_set s now t) h = elim (Bool-cases (leb t now)) [
  | inl e ↦ rw e (kept-Inv s _ refl refl refl (λ d. ((h.below d).0, refl)) h.has_dialer h)
  | inr e ↦ rw e (kept-Inv s _ refl refl refl h.below h.has_dialer h)
]
Step-Inv default _ _ _ (read_timer_fired s b a t e) h =
    kept-Inv s _ refl refl refl (λ d. (refl, (h.below d).1)) h.has_dialer h
Step-Inv default _ _ _ (write_timer_fired s b a t e) h =
    kept-Inv s _ refl refl refl (λ d. ((h.below d).0, refl)) h.has_dialer h
Step-Inv default _ _ _ (message_came s b a peer conn p e) h =
    phase-Inv s b a (at peer conn reading) (at peer conn (offering p)) e (λ m. refl) h
Step-Inv default _ _ _ (message_dropped s b a peer conn p e d) h =
    phase-Inv s b a (at peer conn (offering p)) (at peer conn reading) e (λ m. refl) h
Step-Inv default _ _ _ (read_failed s b a peer conn e) h = failed-Inv s b a peer conn e h
Step-Inv default _ _ _ (worker_ended s b a peer conn e) h = ended-Inv s b a peer conn e h
Step-Inv default _ _ _ (watcher_closed s b a w e d) h =
    kept-Inv s _ refl refl refl h.below h.has_dialer h

pub Trace-Inv :
    (default : ℕ) (s : State) (es : List Event) (t : State) → Trace default s es t → Inv s → Inv t
Trace-Inv default s _ _ here h = h
Trace-Inv default s _ _ (and_then t u es e r st) h =
    Step-Inv default t e u st (Trace-Inv default s es t r h)
