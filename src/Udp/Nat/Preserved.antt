-- ===== src/Udp/Nat/Preserved.antt =====
-- Every step of the NAT table of udp.go keeps the invariant, and every run can be brought to an end
-- with no socket left.
use go_shadowsocks.Prelude.{
  All-append, ℕ, ◌<◌, ◌≡◌, refl, ◌∙◌, ap, sym, subst, List, ◌∷◌, ◌++◌, Option, none, some, All,
  All-without, All-replace, All-split, arith,
}
use go_shadowsocks.Udp.Nat.{
  Table, get, put, del, Stage, copying, returned, deleted, Worker, waiting, missed, State, start,
  close_found, after_get, receive, listen, Step, received, listened, listen_failed, sent,
  copy_ended, entry_deleted, socket_closed, Steps, here, and_then,
}
use go_shadowsocks.Udp.Nat.Invariant.{
  LoopOk-without, entries, socks_of, FoundOwn, Free, Different, Distinct, LoopOk, Inv,
  get-none-Free, entries-append, socks_of-append, del-Free, del-append, Different-middle,
  close-append, below_apart, below_next,
}

start-Inv : Inv start
unfolding start entries
start-Inv = record {
  table_is = refl;
  sockets_are = refl;
  own = tt;
  keys = tt;
  ready = tt;
  apart = tt;
  older = tt;
}

after_get-LoopOk :
    (peer : ℕ) (m : Table) (o : Option ℕ) → get peer m ≡ o → LoopOk (after_get peer o) m
after_get-LoopOk peer m none e = get-none-Free peer m e
after_get-LoopOk peer m (some pc) e = tt

receive-Inv : (s : State) (peer : ℕ) → Inv s → Inv (receive peer s)
unfolding receive
receive-Inv s peer h = record {
  table_is = h.table_is;
  sockets_are = h.sockets_are;
  own = h.own;
  keys = h.keys;
  ready = after_get-LoopOk peer s.table (get peer s.table) refl;
  apart = h.apart;
  older = h.older;
}

to_waiting-Inv : (s : State) → Inv s → Inv (record s { loop = waiting })
to_waiting-Inv s h = record {
  table_is = h.table_is;
  sockets_are = h.sockets_are;
  own = h.own;
  keys = h.keys;
  ready = tt;
  apart = h.apart;
  older = h.older;
}

listen-Inv : (s : State) (peer : ℕ) → s.loop ≡ missed peer → Inv s → Inv (listen peer s)
unfolding listen put entries
listen-Inv s peer e h =
    let free : Free peer s.table = subst (λ l. LoopOk l s.table) e h.ready in
    let same = del-Free peer s.table free in
    record {
      table_is = ap (◌∷◌ (peer, s.fresh)) (same ∙ h.table_is);
      sockets_are = ap (◌∷◌ s.fresh) h.sockets_are;
      own = (λ found x. cc, h.own);
      keys = rw same (free, h.keys);
      ready = tt;
      apart = (below_apart s.fresh s.sockets h.older, h.apart);
      older = (omega arith, below_next s.fresh s.sockets h.older);
    }

-- A goroutine among the others.
abbrev at : ℕ → ℕ → Stage → Worker
at peer sock stage = record { peer = peer; sock = sock; stage = stage }

module _ (s : State) (b a : List Worker) (peer sock : ℕ) where
  copy_ended-Inv :
      s.workers ≡ b ++ at peer sock copying ∷ a
      → Inv s
      → Inv (record s { workers = b ++ at peer sock returned ∷ a })
  unfolding entries
  copy_ended-Inv e h = record {
    table_is = cc (
      h.table_is,
      e,
      entries-append b (at peer sock copying ∷ a),
      entries-append b (at peer sock returned ∷ a),
    );
    sockets_are = cc (
      h.sockets_are,
      e,
      socks_of-append b (at peer sock copying ∷ a),
      socks_of-append b (at peer sock returned ∷ a),
    );
    own =
        All-replace FoundOwn b (at peer sock copying) (at peer sock returned) a (λ found x. cc)
          (subst (All FoundOwn) e h.own);
    keys = h.keys;
    ready = h.ready;
    apart = h.apart;
    older = h.older;
  }

  entry_deleted-Inv :
      s.workers ≡ b ++ at peer sock returned ∷ a
      → Inv s
      → Inv (record s {
        table = (del peer s.table).1;
        workers = b ++ at peer sock (deleted (del peer s.table).0) ∷ a;
      })
  unfolding entries
  entry_deleted-Inv e h =
      let was : s.table ≡ entries b ++ (peer, sock) ∷ entries a =
        h.table_is ∙ ap entries e ∙ entries-append b (at peer sock returned ∷ a) in
      let (free, rest) =
        Different-middle (entries b) peer sock (entries a) (subst Different was h.keys) in
      let gone : del peer s.table ≡ (some sock, entries b ++ entries a) =
        ap (del peer) was ∙ del-append peer sock (entries b) (entries a) free in
      record {
        table_is =
            ap (λ r. r.1) gone
            ∙ sym (entries-append b (at peer sock (deleted (del peer s.table).0) ∷ a));
        sockets_are = cc (
          h.sockets_are,
          e,
          socks_of-append b (at peer sock returned ∷ a),
          socks_of-append b (at peer sock (deleted (del peer s.table).0) ∷ a),
        );
        own =
            All-replace FoundOwn b (at peer sock returned)
              (at peer sock (deleted (del peer s.table).0)) a (λ found x. cc (x, gone))
              (subst (All FoundOwn) e h.own);
        keys = rw gone rest;
        ready = rw gone (
            LoopOk-without s.loop (entries b) (peer, sock) (entries a)
              (subst (LoopOk s.loop) was h.ready));
        apart = h.apart;
        older = h.older;
      }

  socket_closed-Inv :
      (found : Option ℕ)
      → s.workers ≡ b ++ at peer sock (deleted found) ∷ a
      → Inv s
      → Inv (record s { sockets = close_found found s.sockets; workers = b ++ a })
  unfolding entries
  socket_closed-Inv found e h =
      let (l, (own, r)) =
        All-split FoundOwn b (at peer sock (deleted found) ∷ a) (subst (All FoundOwn) e h.own) in
      let mine : found ≡ some sock = own found refl in
      let were : s.sockets ≡ socks_of b ++ sock ∷ socks_of a =
        h.sockets_are ∙ ap socks_of e ∙ socks_of-append b (at peer sock (deleted found) ∷ a) in
      let (closed, apart) =
        close-append sock (socks_of b) (socks_of a) (subst Distinct were h.apart) in
      let left : close_found found s.sockets ≡ socks_of b ++ socks_of a = cc (mine, were, closed) in
      record {
        table_is =
            h.table_is
            ∙ ap entries e
            ∙ entries-append b (at peer sock (deleted found) ∷ a)
            ∙ sym (entries-append b a);
        sockets_are = left ∙ sym (socks_of-append b a);
        own = All-append FoundOwn b a l r;
        keys = h.keys;
        ready = h.ready;
        apart = rw left apart;
        older = rw left (
            All-without (λ x. x < s.fresh) (socks_of b) sock (socks_of a)
              (subst (All (λ x. x < s.fresh)) were h.older));
      }

Step-Inv : (s t : State) → Step s t → Inv s → Inv t
Step-Inv _ _ (received s peer e) h = receive-Inv s peer h
Step-Inv _ _ (listened s peer e) h = listen-Inv s peer e h
Step-Inv _ _ (listen_failed s peer e) h = to_waiting-Inv s h
Step-Inv _ _ (sent s peer pc e) h = to_waiting-Inv s h
Step-Inv _ _ (copy_ended s b a peer sock e) h = copy_ended-Inv s b a peer sock e h
Step-Inv _ _ (entry_deleted s b a peer sock e) h = entry_deleted-Inv s b a peer sock e h
Step-Inv _ _ (socket_closed s b a peer sock found e) h = socket_closed-Inv s b a peer sock found e h

pub Steps-Inv : (s t : State) → Steps s t → Inv s → Inv t
Steps-Inv _ _ (here s) h = h
Steps-Inv _ _ (and_then s t u st e) h = Step-Inv t u e (Steps-Inv s t st h)

-- Under every interleaving of datagrams, timeouts and failures, from an empty table on, the invariant
-- holds: the table holds exactly the sockets of the goroutines that have not deleted their entry, one
-- to a peer; the open sockets are exactly those of the goroutines; and a goroutine deletes its own
-- socket only.
pub reached-Inv : (s : State) → Steps start s → Inv s
reached-Inv s st = Steps-Inv start s st start-Inv
