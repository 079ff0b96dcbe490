-- ===== src/Udp/Nat/Invariant.antt =====
-- What stays true of the NAT table of udp.go under every interleaving of the main loop and the
-- goroutines.
use go_shadowsocks.Prelude.{
  All-without, All-split, ℕ, suc, ◌<◌, ◌≡◌, ◌≢◌, refl, ap, sym, List, [], ◌∷◌, ◌++◌, Option, none,
  some, map, All, arith,
}
use go_shadowsocks.Udp.Nat.{
  Table, get, del, Stage, copying, returned, deleted, Worker, Loop, waiting, missed, sending, State,
  close,
}

-- The entry that a goroutine still has in the table, and the socket that it has still to close.
abbrev pub entry_of : Stage → ℕ × ℕ → Table → Table
entry_of copying e m = e ∷ m
entry_of returned e m = e ∷ m
entry_of (deleted found) e m = m

unfoldable pub entries : List Worker → Table
entries [] = []
entries (w ∷ ws) = entry_of w.stage (w.peer, w.sock) (entries ws)

abbrev pub socks_of : List Worker → List ℕ
socks_of = map (λ (w : Worker). w.sock)

-- A goroutine behind `Del` got its own socket from it.
abbrev pub FoundOwn : Worker → Type 0
FoundOwn w = (found : Option ℕ) → w.stage ≡ deleted found → found ≡ some w.sock

-- No entry has the key.
abbrev pub Free : ℕ → Table → Type 0
Free key = All (λ e. e.0 ≢ key)

-- The keys are different.
abbrev pub Different : Table → Type 0
Different [] = Unit {0}
Different ((k, pc) ∷ m) = Free k m × Different m

abbrev pub Distinct : List ℕ → Type 0
Distinct [] = Unit {0}
Distinct (x ∷ xs) = All (λ y. y ≢ x) xs × Distinct xs

abbrev pub LoopOk : Loop → Table → Type 0
LoopOk waiting m = Unit {0}
LoopOk (missed peer) m = Free peer m
LoopOk (sending peer pc) m = Unit {0}

-- The table holds exactly the sockets of the goroutines that have not deleted theirs, under different
-- keys; the open sockets are exactly those of the goroutines, all different and older than the next.
pub record Inv (s : State) : Type 0 where
  pub table_is : s.table ≡ entries s.workers
  pub sockets_are : s.sockets ≡ socks_of s.workers
  pub own : All FoundOwn s.workers
  pub keys : Different s.table
  pub ready : LoopOk s.loop s.table
  pub apart : Distinct s.sockets
  pub older : All (λ x. x < s.fresh) s.sockets

pub get-none-Free : (key : ℕ) (m : Table) → get key m ≡ none → Free key m
unfolding get
get-none-Free key [] e = tt
get-none-Free key ((k, pc) ∷ m) e = (ground arith, get-none-Free key m (ground arith))

entry_of-append :
    (st : Stage) (e : ℕ × ℕ) (m m' : Table) → entry_of st e (m ++ m') ≡ entry_of st e m ++ m'
entry_of-append copying e m m' = refl
entry_of-append returned e m m' = refl
entry_of-append (deleted found) e m m' = refl

pub entries-append : (ws vs : List Worker) → entries (ws ++ vs) ≡ entries ws ++ entries vs
unfolding entries
entries-append [] vs = refl
entries-append (w ∷ ws) vs =
    rw (entries-append ws vs) (entry_of-append w.stage (w.peer, w.sock) (entries ws) (entries vs))

pub socks_of-append : (ws vs : List Worker) → socks_of (ws ++ vs) ≡ socks_of ws ++ socks_of vs
socks_of-append [] vs = refl
socks_of-append (w ∷ ws) vs = ap (◌∷◌ w.sock) (socks_of-append ws vs)

pub del-Free : (key : ℕ) (m : Table) → Free key m → (del key m).1 ≡ m
unfolding del
del-Free key [] h = refl
del-Free key ((k, pc) ∷ m) h = ground (arith, h.0, del-Free key m h.1)

pub del-append :
    (key pc : ℕ) (m m' : Table) → Free key m → del key (m ++ (key, pc) ∷ m') ≡ (some pc, m ++ m')
unfolding del
del-append key pc [] m' h = ground arith
del-append key pc ((k, p) ∷ m) m' h = ground (arith, h.0, del-append key pc m m' h.1)

-- A key stands once.
pub Different-middle :
    (m : Table) (key pc : ℕ) (m' : Table)
    → Different (m ++ (key, pc) ∷ m')
    → Free key m × Different (m ++ m')
Different-middle [] key pc m' h = (tt, h.1)
Different-middle ((k, p) ∷ m) key pc m' h =
    let (free, rest) = Different-middle m key pc m' h.1 in
    let (l, r) = All-split (λ e. e.0 ≢ k) m ((key, pc) ∷ m') h.0 in
    ((λ e. r.0 (sym e), free), (All-without (λ e. e.0 ≢ k) m (key, pc) m' h.0, rest))

pub close-append :
    (x : ℕ) (xs ys : List ℕ)
    → Distinct (xs ++ x ∷ ys)
    → (close x (xs ++ x ∷ ys) ≡ xs ++ ys) × Distinct (xs ++ ys)
unfolding close
close-append x [] ys h = (ground arith, h.1)
close-append x (y ∷ xs) ys h =
    let (l, r) = All-split (λ z. z ≢ y) xs (x ∷ ys) h.0 in
    let (closed, rest) = close-append x xs ys h.1 in
    (ground (arith, r.0, closed), (All-without (λ z. z ≢ y) xs x ys h.0, rest))

pub below_apart : (n : ℕ) (xs : List ℕ) → All (λ x. x < n) xs → All (λ x. x ≢ n) xs
below_apart n [] h = tt
below_apart n (x ∷ xs) h = (λ e. absurd (omega (arith, e, h.0)), below_apart n xs h.1)

pub below_next : (n : ℕ) (xs : List ℕ) → All (λ x. x < n) xs → All (λ x. x < suc n) xs
below_next n [] h = tt
below_next n (x ∷ xs) h = (omega (arith, h.0), below_next n xs h.1)

pub LoopOk-without :
    (l : Loop) (m : Table) (e : ℕ × ℕ) (m' : Table) → LoopOk l (m ++ e ∷ m') → LoopOk l (m ++ m')
LoopOk-without waiting m e m' h = tt
LoopOk-without (missed peer) m e m' h = All-without (λ e. e.0 ≢ peer) m e m' h
LoopOk-without (sending peer pc) m e m' h = tt
