-- ===== src/Udp/Nat/Sockets.antt =====
-- The sockets of the NAT table of udp.go: none is handed out closed, and none is kept for ever.
use go_shadowsocks.Prelude.{
  ℕ, ◌≡◌, refl, ◌∙◌, ap, sym, subst, ◌⊎◌, inl, inr, List, [], ◌∷◌, Option, some, arith,
}
use go_shadowsocks.Udp.Nat.{
  Table, get, del, Stage, copying, returned, deleted, Worker, State, start, close_found, Step,
  copy_ended, entry_deleted, socket_closed, Steps, here, and_then,
}
use go_shadowsocks.Udp.Nat.Invariant.{entry_of, entries, socks_of}
use go_shadowsocks.Udp.Nat.Preserved.{Steps-Inv, reached-Inv}

abbrev pub IsIn : ℕ → List ℕ → Type 0
IsIn x [] = ⊥
IsIn x (y ∷ ys) = (x ≡ y) ⊎ IsIn x ys

get-entry_of :
    (peer pc : ℕ) (st : Stage) (k v : ℕ) (m : Table)
    → get peer (entry_of st (k, v) m) ≡ some pc
    → (pc ≡ v) ⊎ (get peer m ≡ some pc)
unfolding get
get-entry_of peer pc copying k v m e = ground arith
get-entry_of peer pc returned k v m e = ground arith
get-entry_of peer pc (deleted found) k v m e = inr e

get-entries-IsIn :
    (peer pc : ℕ) (ws : List Worker) → get peer (entries ws) ≡ some pc → IsIn pc (socks_of ws)
unfolding entries get
get-entries-IsIn peer pc [] e = ground arith
get-entries-IsIn peer pc (w ∷ ws) e =
    elim (get-entry_of peer pc w.stage w.peer w.sock (entries ws) e) [
      | inl same ↦ inl same
      | inr rest ↦ inr (get-entries-IsIn peer pc ws rest)
    ]

-- Whatever happened before, a socket that `Get` finds is open.
pub get-IsIn :
    (s : State) (peer pc : ℕ) → Steps start s → get peer s.table ≡ some pc → IsIn pc s.sockets
get-IsIn s peer pc st e =
    let h = reached-Inv s st in
    subst (IsIn pc) (sym h.sockets_are)
      (get-entries-IsIn peer pc s.workers (ap (get peer) (sym h.table_is) ∙ e))

steps_trans : (s t u : State) → Steps s t → Steps t u → Steps s u
steps_trans s t _ a (here _) = a
steps_trans s t _ a (and_then _ v u b st) = and_then s v u (steps_trans s t v a b) st

abbrev one : (s t : State) → Step s t → Steps s t
one s t st = and_then s s t (here s) st

-- The turns that the first goroutine has left.
abbrev Retired : State → List Worker → Type 0
Retired s ws = (t : State) × Steps s t × (t.workers ≡ ws)

retire_deleted :
    (s : State) (ws : List Worker) (peer sock : ℕ) (found : Option ℕ)
    → s.workers ≡ record { peer = peer; sock = sock; stage = deleted found } ∷ ws
    → Retired s ws
retire_deleted s ws peer sock found e =
    let t : State = record s { sockets = close_found found s.sockets; workers = ws } in
    (t, one s t (socket_closed s [] ws peer sock found e), refl)

retire_returned :
    (s : State) (ws : List Worker) (peer sock : ℕ)
    → s.workers ≡ record { peer = peer; sock = sock; stage = returned } ∷ ws
    → Retired s ws
retire_returned s ws peer sock e =
    let t : State = record s {
      table = (del peer s.table).1;
      workers = record { peer = peer; sock = sock; stage = deleted (del peer s.table).0 } ∷ ws;
    } in
    let (u, st, rest) = retire_deleted t ws peer sock (del peer s.table).0 refl in
    (u, steps_trans s t u (one s t (entry_deleted s [] ws peer sock e)) st, rest)

retire :
    (s : State) (ws : List Worker) (peer sock : ℕ) (st : Stage)
    → s.workers ≡ record { peer = peer; sock = sock; stage = st } ∷ ws
    → Retired s ws
retire s ws peer sock copying e =
    let t : State = record s {
      workers = record { peer = peer; sock = sock; stage = returned } ∷ ws;
    } in
    let (u, st, rest) = retire_returned t ws peer sock refl in
    (u, steps_trans s t u (one s t (copy_ended s [] ws peer sock e)) st, rest)
retire s ws peer sock returned e = retire_returned s ws peer sock e
retire s ws peer sock (deleted found) e = retire_deleted s ws peer sock found e

retire_all : (ws : List Worker) (s : State) → s.workers ≡ ws → Retired s []
retire_all [] s e = (s, here s, e)
retire_all (w ∷ ws) s e =
    let (t, st, rest) = retire s ws w.peer w.sock w.stage e in
    let (u, more, none_left) = retire_all ws t rest in (u, steps_trans s t u st more, none_left)

pub all_closed :
    (s : State) → Steps start s → (t : State) × Steps s t × (t.table ≡ []) × (t.sockets ≡ [])
unfolding entries
all_closed s st =
    let (t, more, none_left) = retire_all s.workers s refl in
    let h = Steps-Inv s t more (reached-Inv s st) in
    (t, more, h.table_is ∙ ap entries none_left, h.sockets_are ∙ ap socks_of none_left)
