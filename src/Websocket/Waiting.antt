-- ===== src/Websocket/Waiting.antt =====
-- websocket/packetconn.go: the packets of a peer in a run, and the one that its goroutine offers to
-- ReadFrom.
use go_shadowsocks.Udp.Nat.{Table}
use go_shadowsocks.Udp.Nat.Invariant.{Different-middle, Different, Free}
use go_shadowsocks.Websocket.Step.{came, taken, dropped, Event}
use go_shadowsocks.Websocket.Invariant.{entries-append, entry_of, entries}
use go_shadowsocks.Websocket.{at, deleted, reading, offering, Phase, Worker}
use native.Mathlib.Decide.{ℕ_discrete}
use go_shadowsocks.Prelude.{
  append-nil, append_assoc, ℕ, ◌≡◌, refl, ap, ◌∙◌, subst, List, [], ◌∷◌, ◌++◌, arith, ◌==◌,
  if◌then◌else◌,
}

abbrev pub came_from : ℕ → Event → List (List ℕ)
came_from q (came peer p) = if peer == q then p ∷ [] else []
came_from q _ = []

abbrev pub taken_from : ℕ → Event → List (List ℕ)
taken_from q (taken peer p) = if peer == q then p ∷ [] else []
taken_from q _ = []

abbrev pub dropped_from : ℕ → Event → List (List ℕ)
dropped_from q (dropped peer p) = if peer == q then p ∷ [] else []
dropped_from q _ = []

abbrev pub offer : Phase → List (List ℕ)
offer reading = []
offer (offering p) = p ∷ []
offer deleted = []

-- The packets of the peer `q`: those that came in binary messages, those that ReadFrom took, and the
-- one that waits for ReadFrom.
unfoldable pub messages : ℕ → List Event → List (List ℕ)
messages q [] = []
messages q (e ∷ es) = came_from q e ++ messages q es

unfoldable pub reads : ℕ → List Event → List (List ℕ)
reads q [] = []
reads q (e ∷ es) = taken_from q e ++ reads q es

pub drops : ℕ → List Event → List (List ℕ)
drops q [] = []
drops q (e ∷ es) = dropped_from q e ++ drops q es

unfoldable pub waiting : ℕ → List Worker → List (List ℕ)
waiting q [] = []
waiting q (w ∷ ws) = (if w.peer == q then offer w.phase else []) ++ waiting q ws

pub messages-append :
    (q : ℕ) (es ds : List Event) → messages q (es ++ ds) ≡ messages q es ++ messages q ds
unfolding messages
messages-append q [] ds = refl
messages-append q (e ∷ es) ds = rw (messages-append q es ds, append_assoc) refl

pub reads-append : (q : ℕ) (es ds : List Event) → reads q (es ++ ds) ≡ reads q es ++ reads q ds
unfolding reads
reads-append q [] ds = refl
reads-append q (e ∷ es) ds = rw (reads-append q es ds, append_assoc) refl

pub waiting-append :
    (q : ℕ) (ws vs : List Worker) → waiting q (ws ++ vs) ≡ waiting q ws ++ waiting q vs
unfolding waiting
waiting-append q [] vs = refl
waiting-append q (w ∷ ws) vs = rw (waiting-append q ws vs, append_assoc) refl

-- Nothing waits for a peer without an entry.
pub offer-Free :
    (q peer conn : ℕ) (ph : Phase) (m : Table)
    → Free q (entry_of ph (peer, conn) m)
    → ((if peer == q then offer ph else []) ≡ []) × Free q m
offer-Free q peer conn reading m h = (ground arith, h.1)
offer-Free q peer conn (offering p) m h = (ground (arith, h.0), h.1)
offer-Free q peer conn deleted m h = (ground arith, h)

pub waiting-Free : (q : ℕ) (ws : List Worker) → Free q (entries ws) → waiting q ws ≡ []
unfolding waiting entries
waiting-Free q [] h = refl
waiting-Free q (w ∷ ws) h =
    let (none_here, free) = offer-Free q w.peer w.conn w.phase (entries ws) h in
    rw none_here (waiting-Free q ws free)

pub Different-behind :
    (m : Table) (key pc : ℕ) (m' : Table) → Different (m ++ (key, pc) ∷ m') → Free key m'
Different-behind [] key pc m' h = h.0
Different-behind (x ∷ m) key pc m' h = Different-behind m key pc m' h.1

-- The peers of the entries are different, so the goroutine of a peer is the only one that offers a
-- packet of it.
pub waiting-alone :
    (q conn : ℕ) (ph : Phase) (b a : List Worker)
    → Different (entries (b ++ at q conn ph ∷ a))
    → ((m : Table) → entry_of ph (q, conn) m ≡ (q, conn) ∷ m)
    → (waiting q b ≡ []) × (waiting q a ≡ [])
unfolding entries
waiting-alone q conn ph b a d has =
    let d' : Different (entries b ++ (q, conn) ∷ entries a) =
      subst Different
        (entries-append b (at q conn ph ∷ a) ∙ ap (◌++◌ (entries b)) (has (entries a))) d in
    (
      waiting-Free q b (Different-middle (entries b) q conn (entries a) d').0,
      waiting-Free q a (Different-behind (entries b) q conn (entries a) d'),
    )

abbrev pub mine : ℕ → ℕ → List (List ℕ) → List (List ℕ)
mine q peer ps = if peer == q then ps else []

pub waiting-split :
    (q peer conn : ℕ) (ph : Phase) (b a : List Worker)
    → waiting q (b ++ at peer conn ph ∷ a) ≡ waiting q b ++ (mine q peer (offer ph) ++ waiting q a)
unfolding waiting
waiting-split q peer conn ph b a = waiting-append q b (at peer conn ph ∷ a)

-- A goroutine takes a packet in, or gives it away.
pub phase-Accounted :
    (q peer conn : ℕ) (ph ph' : Phase) (taken_in given : List (List ℕ)) (b a : List Worker)
    → Different (entries (b ++ at peer conn ph ∷ a))
    → ((m : Table) → entry_of ph (peer, conn) m ≡ (peer, conn) ∷ m)
    → offer ph ++ taken_in ≡ given ++ offer ph'
    → waiting q (b ++ at peer conn ph ∷ a) ++ mine q peer taken_in
      ≡ mine q peer given ++ waiting q (b ++ at peer conn ph' ∷ a)
phase-Accounted q peer conn ph ph' taken_in given b a d has same =
    let first = waiting-split q peer conn ph b a in
    let then_it = waiting-split q peer conn ph' b a in
    elim (ℕ_discrete peer q) [
      | yes e ↦
          let (nb, na) = waiting-alone peer conn ph b a d has in
          let nb' = subst (λ k. waiting k b ≡ []) e nb in
          let na' = subst (λ k. waiting k a ≡ []) e na in
          let it : (xs : List (List ℕ)) → mine q peer xs ≡ xs = λ xs. ground (arith, e) in
          let lhs : waiting q (b ++ at peer conn ph ∷ a) ≡ offer ph =
            rw (first, nb', na', it (offer ph), append-nil) refl in
          let rhs : waiting q (b ++ at peer conn ph' ∷ a) ≡ offer ph' =
            rw (then_it, nb', na', it (offer ph'), append-nil) refl in
          rw (lhs, rhs, it taken_in, it given) same
      | no ne ↦
          let other : (xs : List (List ℕ)) → mine q peer xs ≡ [] = λ xs. ground (arith, ne) in
          rw
            (
              first,
              then_it,
              other (offer ph),
              other (offer ph'),
              other taken_in,
              other given,
              append-nil,
            )
            refl
    ]

-- A goroutine that offers nothing leaves.
pub gone-Accounted :
    (q peer conn : ℕ) (ph : Phase) (b a : List Worker)
    → offer ph ≡ []
    → waiting q (b ++ at peer conn ph ∷ a) ≡ waiting q (b ++ a)
gone-Accounted q peer conn ph b a none_here =
    let none_of : mine q peer (offer ph) ≡ [] = ground (arith, none_here) in
    rw (waiting-split q peer conn ph b a, none_of, waiting-append q b a) refl

pub still : (q : ℕ) (ws vs : List Worker) → vs ≡ ws → waiting q ws ++ [] ≡ waiting q vs
still q ws vs e = rw (e, append-nil) refl
