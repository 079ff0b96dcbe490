-- ===== src/Websocket/Step.antt =====
-- websocket/packetconn.go: the calls and the goroutines of a WSPacketConn taking turns. Each step is
-- one access to what they share.
use go_shadowsocks.Prelude.{ℕ, true, false, ◌≡◌, List, [], ◌∷◌, ◌++◌, Option}
use go_shadowsocks.Errors.{Err}
use go_shadowsocks.Udp.Nat.{del}
use go_shadowsocks.Websocket.{
  reading, offering, deleted, Worker, at, State, set_ws_timeout, handle_ws_conn, Select, done,
  packet, with_dialer, deliver, close, set_read_deadline, set_write_deadline,
}

-- What a step does with a packet: a goroutine received it in a binary message, ReadFrom took it, or
-- the goroutine dropped it.
pub data Event : Type 0 where
  quiet : Event
  came : ℕ → List ℕ → Event
  taken : ℕ → List ℕ → Event
  dropped : ℕ → List ℕ → Event

-- The cases of ReadFrom's `select` that are ready.
pub data Ready : State → Select → State → Type 0 where
  cancelled : (s : State) → s.read_done ≡ true → Ready s done s
  offered :
      (s : State) (before after : List Worker) (peer conn : ℕ) (p : List ℕ)
      → s.workers ≡ before ++ at peer conn (offering p) ∷ after
      → Ready s (packet peer p) (record s { workers = before ++ at peer conn reading ∷ after })

abbrev pub event_of : Select → Event
event_of done = quiet
event_of (packet peer p) = taken peer p

pub data Step (default : ℕ) : State → Event → State → Type 0 where
  timeout_set : (s : State) (t : ℕ) → Step default s quiet (set_ws_timeout t s)
  handled :
      (s : State) (conn local remote : ℕ)
      → Step default s quiet (handle_ws_conn conn local remote s).1
  read : (s t : State) (c : Select) → s.closed ≡ false → Ready s c t → Step default s (event_of c) t
  dialer_chosen : (s : State) → Step default s quiet (with_dialer default s)
  delivered :
      (s : State) (fault : Option Err) (p : List ℕ) (addr : ℕ)
      → Step default s quiet (deliver fault p addr s).2
  closed : (s : State) → Step default s quiet (close s).1
  read_deadline_set : (s : State) (now t : ℕ) → Step default s quiet (set_read_deadline now t s)
  write_deadline_set : (s : State) (now t : ℕ) → Step default s quiet (set_write_deadline now t s)
  read_timer_fired :
      (s : State) (before after : List ℕ) (t : ℕ)
      → s.read_timers ≡ before ++ t ∷ after
      → Step default s quiet (record s { read_done = true; read_timers = before ++ after })
  write_timer_fired :
      (s : State) (before after : List ℕ) (t : ℕ)
      → s.write_timers ≡ before ++ t ∷ after
      → Step default s quiet (record s { write_done = true; write_timers = before ++ after })
  -- ReadMessage returned a binary message.
  message_came :
      (s : State) (before after : List Worker) (peer conn : ℕ) (p : List ℕ)
      → s.workers ≡ before ++ at peer conn reading ∷ after
      → Step default s
          (came peer p)
          (record s { workers = before ++ at peer conn (offering p) ∷ after })
  -- The `break` behind ctx.Done() leaves the `select` only: the goroutine reads on.
  message_dropped :
      (s : State) (before after : List Worker) (peer conn : ℕ) (p : List ℕ)
      → s.workers ≡ before ++ at peer conn (offering p) ∷ after
      → s.ctx_done ≡ true
      → Step default s
          (dropped peer p)
          (record s { workers = before ++ at peer conn reading ∷ after })
  -- ReadMessage failed: the deferred Delete, then the deferred Close.
  read_failed :
      (s : State) (before after : List Worker) (peer conn : ℕ)
      → s.workers ≡ before ++ at peer conn reading ∷ after
      → Step default s quiet (record s {
        conns = (del peer s.conns).1;
        workers = before ++ at peer conn deleted ∷ after;
      })
  worker_ended :
      (s : State) (before after : List Worker) (peer conn : ℕ)
      → s.workers ≡ before ++ at peer conn deleted ∷ after
      → Step default s quiet (record s { hung_up = conn ∷ s.hung_up; workers = before ++ after })
  -- The goroutine that waits for ctx.Done() while the connection is read.
  watcher_closed :
      (s : State) (before after : List Worker) (w : Worker)
      → s.workers ≡ before ++ w ∷ after
      → s.ctx_done ≡ true
      → Step default s quiet (record s { hung_up = w.conn ∷ s.hung_up })

-- A run, with what happened to packets, the latest at the end.
pub data Trace (default : ℕ) (s : State) : List Event → State → Type 0 where
  here : Trace default s [] s
  and_then :
      (t u : State) (es : List Event) (e : Event)
      → Trace default s es t
      → Step default t e u
      → Trace default s (es ++ e ∷ []) u
