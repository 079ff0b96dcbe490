-- ===== src/Udp/Nat.antt =====
-- udp.go: `natmap` and the life of its sockets. Peers and sockets are numbers. The main loop of
-- `udpLocal`, `udpSocksLocal` and `udpRemote` and the goroutines of `natmap.Add` take turns.
pub mod Invariant
pub mod Preserved
pub mod Sockets
use go_shadowsocks.Prelude.{
  ℕ, suc, ◌==◌, if◌then◌else◌, ◌≡◌, List, [], ◌∷◌, ◌++◌, Option, none, some, map,
}

abbrev pub Table : Type 0
Table = List (ℕ × ℕ)

-- `natmap.Get`, `natmap.Set` and `natmap.Del`, each under the table's lock.
unfoldable pub get : ℕ → Table → Option ℕ
get key [] = none
get key ((k, pc) ∷ m) = if k == key then some pc else get key m

unfoldable pub del : ℕ → Table → Option ℕ × Table
del key [] = (none, [])
del key ((k, pc) ∷ m) =
    let (found, rest) = del key m in if k == key then (some pc, m) else (found, (k, pc) ∷ rest)

unfoldable pub put : ℕ → ℕ → Table → Table
put key pc m = (key, pc) ∷ (del key m).1

-- A goroutine of `Add`: in `timedCopy`, behind it, or behind `Del` with what `Del` returned.
pub data Stage : Type 0 where
  copying : Stage
  returned : Stage
  deleted : Option ℕ → Stage

pub record Worker : Type 0 where
  pub peer : ℕ
  pub sock : ℕ
  pub stage : Stage

-- The main loop: before ReadFrom, behind a `Get` that found nothing, before the final WriteTo.
pub data Loop : Type 0 where
  waiting : Loop
  missed : ℕ → Loop
  sending : ℕ → ℕ → Loop

-- `sockets` are the open sockets, `fresh` the next one that net.ListenPacket returns.
pub record State : Type 0 where
  pub table : Table
  pub sockets : List ℕ
  pub workers : List Worker
  pub loop : Loop
  pub fresh : ℕ

unfoldable pub start : State
start = record { table = []; sockets = []; workers = []; loop = waiting; fresh = 0 }

-- `pc.Close()`.
pub close : ℕ → List ℕ → List ℕ
close pc [] = []
close pc (x ∷ xs) = if x == pc then xs else x ∷ close pc xs

-- `if pc := m.Del(…); pc != nil { pc.Close() }`.
abbrev pub close_found : Option ℕ → List ℕ → List ℕ
close_found none xs = xs
close_found (some pc) xs = close pc xs

-- The main loop on a datagram of `peer`: `Get`, then ListenPacket and `Add` where nothing was found.
abbrev pub after_get : ℕ → Option ℕ → Loop
after_get peer none = missed peer
after_get peer (some pc) = sending peer pc

unfoldable pub receive : ℕ → State → State
receive peer s = record s { loop = after_get peer (get peer s.table) }

unfoldable pub listen : ℕ → State → State
listen peer s = record s {
  table = put peer s.fresh s.table;
  sockets = s.fresh ∷ s.sockets;
  workers = record { peer = peer; sock = s.fresh; stage = copying } ∷ s.workers;
  loop = sending peer s.fresh;
  fresh = suc s.fresh;
}

-- One turn of the main loop or of one goroutine, which stands between `before` and `after`.
pub data Step : State → State → Type 0 where
  received : (s : State) (peer : ℕ) → s.loop ≡ waiting → Step s (receive peer s)
  listened : (s : State) (peer : ℕ) → s.loop ≡ missed peer → Step s (listen peer s)
  listen_failed :
      (s : State) (peer : ℕ) → s.loop ≡ missed peer → Step s (record s { loop = waiting })
  sent : (s : State) (peer pc : ℕ) → s.loop ≡ sending peer pc → Step s (record s { loop = waiting })
  copy_ended :
      (s : State) (before after : List Worker) (peer sock : ℕ)
      → s.workers ≡ before ++ record { peer = peer; sock = sock; stage = copying } ∷ after
      → Step s (record s {
        workers = before ++ record { peer = peer; sock = sock; stage = returned } ∷ after;
      })
  entry_deleted :
      (s : State) (before after : List Worker) (peer sock : ℕ)
      → s.workers ≡ before ++ record { peer = peer; sock = sock; stage = returned } ∷ after
      → Step s (record s {
        table = (del peer s.table).1;
        workers =
            before
            ++ record { peer = peer; sock = sock; stage = deleted (del peer s.table).0 } ∷ after;
      })
  socket_closed :
      (s : State) (before after : List Worker) (peer sock : ℕ) (found : Option ℕ)
      → s.workers ≡ before ++ record { peer = peer; sock = sock; stage = deleted found } ∷ after
      → Step s (record s { sockets = close_found found s.sockets; workers = before ++ after })

pub data Steps : State → State → Type 0 where
  here : (s : State) → Steps s s
  and_then : (s t u : State) → Steps s t → Step t u → Steps s u
