-- ===== src/Websocket/Deadlines.antt =====
-- websocket/packetconn.go: what deadlines and Close do, whatever the other goroutines do.
use go_shadowsocks.Websocket.Invariant.{Trace-Inv, Step-Inv, close_lem, Inv}
use go_shadowsocks.Udp.Nat.{get}
use go_shadowsocks.Websocket.Step.{
  watcher_closed, worker_ended, read_failed, message_dropped, message_came, write_timer_fired,
  read_timer_fired, write_deadline_set, read_deadline_set, delivered, dialer_chosen, offered, read,
  closed, handled, timeout_set, quiet, Step, cancelled, here, Trace, Ready, Event,
}
use go_shadowsocks.Errors.{eof, Err}
use go_shadowsocks.Websocket.{
  send_to, stored, set_write_deadline, done, close, handle_ws_conn, deliver, with_dialer,
  set_read_deadline, read_from, State, set_ws_timeout,
}
use go_shadowsocks.Prelude.{
  ℕ, ◌≤◌, ◌≡◌, refl, ap, true, Bool-cases, Option, none, some, List, [], arith,
}

-- A context that is cancelled stays so.
abbrev pub Grows : State → State → Type 0
Grows s t = (s.read_done ≡ true → t.read_done ≡ true) × (s.ctx_done ≡ true → t.ctx_done ≡ true)

stored-Grows :
    (s : State) (o : Option ℕ) (conn local remote : ℕ) → Grows s (stored o conn local remote s).1
stored-Grows s none conn local remote = (λ h. h, λ h. h)
stored-Grows s (some c) conn local remote = (λ h. h, λ h. h)

send_to-Grows :
    (s : State) (o : Option ℕ) (fault : Option Err) (p : List ℕ) → Grows s (send_to o fault p s).2
send_to-Grows s none fault p = (λ h. h, λ h. h)
send_to-Grows s (some c) fault p = (λ h. h, λ h. h)

pub Step-Grows : (default : ℕ) (s : State) (e : Event) (t : State) → Step default s e t → Grows s t
unfolding set_ws_timeout handle_ws_conn with_dialer deliver close set_read_deadline
    set_write_deadline
Step-Grows default _ _ _ (timeout_set s t) = (λ h. h, λ h. h)
Step-Grows default _ _ _ (handled s conn local remote) =
    stored-Grows s (get remote s.conns) conn local remote
Step-Grows default _ _ _ (read _ _ _ _ (cancelled s e)) = (λ h. h, λ h. h)
Step-Grows default _ _ _ (read _ _ _ _ (offered s b a peer conn p e)) = (λ h. h, λ h. h)
Step-Grows default _ _ _ (dialer_chosen s) = (λ h. h, λ h. h)
Step-Grows default _ _ _ (delivered s fault p addr) = send_to-Grows s (get addr s.conns) fault p
Step-Grows default _ _ _ (closed s) =
    (λ h. ground (arith, h, Bool-cases s.closed), λ h. ground (arith, h, Bool-cases s.closed))
Step-Grows default _ _ _ (read_deadline_set s now t) =
    (λ h. ground (arith, h), λ h. ground (arith, h))
Step-Grows default _ _ _ (write_deadline_set s now t) =
    (λ h. ground (arith, h), λ h. ground (arith, h))
Step-Grows default _ _ _ (read_timer_fired s b a t e) = (λ h. refl, λ h. h)
Step-Grows default _ _ _ (write_timer_fired s b a t e) = (λ h. h, λ h. h)
Step-Grows default _ _ _ (message_came s b a peer conn p e) = (λ h. h, λ h. h)
Step-Grows default _ _ _ (message_dropped s b a peer conn p e d) = (λ h. h, λ h. h)
Step-Grows default _ _ _ (read_failed s b a peer conn e) = (λ h. h, λ h. h)
Step-Grows default _ _ _ (worker_ended s b a peer conn e) = (λ h. h, λ h. h)
Step-Grows default _ _ _ (watcher_closed s b a w e d) = (λ h. h, λ h. h)

stays :
    (default : ℕ) (s : State) (es : List Event) (t : State)
    → Trace default s es t
    → s.read_done ≡ true
    → t.read_done ≡ true
stays default s _ _ here h = h
stays default s _ _ (Trace.and_then t u es e r st) h =
    (Step-Grows default t e u st).0 (stays default s es t r h)

-- ReadFrom need not wait, and returns io.EOF where it takes no packet.
abbrev pub ReadsEnd : State → Type 0
ReadsEnd s = Ready s done s × ((room : ℕ) → read_from room done s ≡ ([], none, some eof))

reads_end :
    (default : ℕ) (s : State) (es : List Event) (t : State)
    → s.read_done ≡ true
    → Trace default s es t
    → ReadsEnd t
unfolding read_from
reads_end default s es t d r =
    (cancelled t (stays default s es t r d), λ room. ground (arith, Bool-cases t.closed))

-- Once SetReadDeadline was called with a time that is not in the future, the zero time included,
-- ReadFrom may return io.EOF at once for ever, whatever happens: no later deadline takes it back.
pub read_deadline_final :
    (default now deadline : ℕ) (s : State) (es : List Event) (t : State)
    → deadline ≤ now
    → Trace default (set_read_deadline now deadline s) es t
    → ReadsEnd t
unfolding set_read_deadline
read_deadline_final default now deadline s es t h r =
    reads_end default (set_read_deadline now deadline s) es t (ground (arith, h)) r

-- After Close of a WSPacketConn that keeps the invariant, whatever happens, ReadFrom may return
-- io.EOF at once, and a further Close returns nil as well.
pub close_unblocks :
    (default : ℕ) (s : State) (es : List Event) (t : State)
    → Inv s
    → Trace default (close s).1 es t
    → ReadsEnd t × ((close s).0 ≡ none) × ((close t).0 ≡ none)
close_unblocks default s es t h r =
    let closes = close_lem s h.not_closed in
    let h' = Step-Inv default s quiet (close s).1 (closed s) h in
    let h'' = Trace-Inv default (close s).1 es t r h' in
    (
      reads_end default (close s).1 es t (ap (λ r. r.1.read_done) closes) r,
      ap (λ r. r.0) closes,
      ap (λ r. r.0) (close_lem t h''.not_closed),
    )
