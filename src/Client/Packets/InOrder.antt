-- ===== src/Client/Packets/InOrder.antt =====
-- The two ends of the UDP relay of clientlib/packetconn.go: what goes in comes out, in order.
use go_shadowsocks.Udp.Nat.{put, get}
use go_shadowsocks.Socks.Addr.{parse_addr}
use go_shadowsocks.Errors.{Err}
use go_shadowsocks.Socks.Addr.Parse.{IsIpText}
use go_shadowsocks.Socks.Text.{IpText}
use go_shadowsocks.Prelude.{
  inr, suc, inl, refl, Option-cases, ◌≤◌, [], ap, ◌+◌, length, ◌∷◌, ◌++◌, some, ◌≡◌, none, All, map,
  Option, List, ℕ,
}
use go_shadowsocks.Udp.Relay.{remote_server, relay_client, local_request, udp_buf_size}
use go_shadowsocks.Udp.Relay.RoundTrip.{local_request-remote_request, reply-reply}
use go_shadowsocks.Client.Packets.{
  start, udp_local, remote_turn, sent_by, socket, local_turn, Event, datagram, State, local_loop,
  remote_loop, Incoming, packet, read_error, returned, timed_copy,
}

-- Datagrams of users, each with its peer, for which a socket can be opened where there is none.
abbrev pub from_users : List (ℕ × List ℕ) → List (Event × Option Err)
from_users = map (λ x. (datagram x.0 x.1, none))

-- The datagrams at the server: the peer is the socket that they came through.
abbrev pub at_server : List (ℕ × List ℕ) → List (Event × Option Err × Option Err)
at_server = map (λ x. (datagram x.0 x.1, none, none))

module _ (t : IpText) (laws : IsIpText t) (target tgt : List ℕ)
    (named : parse_addr t target ≡ some tgt) where
  socket_found :
      {B : Type 0}
      → (b : B) (peer : ℕ) (s : State)
      → (pc : ℕ) × (s' : State) × (sent_by b (socket none peer s) ≡ ((pc, b) ∷ [], s'))
  unfolding socket
  socket_found b peer s = elim (Option-cases (get peer s.table)) [
    | inl e ↦ (s.fresh, record { table = put peer s.fresh s.table; fresh = suc s.fresh }, rw e refl)
    | inr (pc, e) ↦ (pc, s, rw e refl)
  ]

  loops_in_order :
      (ds : List (ℕ × List ℕ)) (s r : State)
      → All (λ x. length tgt + length x.1 ≤ udp_buf_size) ds
      → map (λ o. o.1) (remote_loop (at_server (local_loop tgt (from_users ds) s).0) r).0
        ≡ map (λ x. (tgt, x.1)) ds
  unfolding local_loop local_turn remote_loop remote_turn
  loops_in_order [] s r h = refl
  loops_in_order ((peer, d) ∷ ds) s r (fits, h) =
      let (pc, s', sent) = socket_found (local_request tgt d) peer s in
      let (pc', r', relayed) = socket_found {B = List ℕ × List ℕ} (tgt, d) pc r in
      let rest = loops_in_order ds s' r' h in
      rw (sent, local_request-remote_request t laws target tgt d named fits, relayed)
        (ap (◌∷◌ (tgt, d)) rest)

  -- `udpLocal`, started with a target that ParseAddr accepts, goes into its loop, and what it writes
  -- for datagrams of users, where it can open sockets, `udpRemote` relays, if it can open sockets and
  -- resolve the target: each datagram once, in order, to that target, if target and datagram fit the
  -- buffer; whatever is in the table of `udpRemote` before.
  pub relayed_in_order :
      (ds : List (ℕ × List ℕ)) (r : State)
      → All (λ x. length tgt + length x.1 ≤ udp_buf_size) ds
      → (w : List (ℕ × List ℕ)) × (s : State) × (udp_local t target none (from_users ds)
          ≡ some (w, s))
        × (map (λ o. o.1) (remote_loop (at_server w) r).0 ≡ map (λ x. (tgt, x.1)) ds)
  unfolding udp_local
  relayed_in_order ds r h =
      let run : List (ℕ × List ℕ) × State = local_loop tgt (from_users ds) start in
      (run.0, run.1, rw named refl, loops_in_order ds start r h)

-- Replies, each with the text of its source, that are then written without an error, and the error
-- that ends the reads.
abbrev pub replies : List (List ℕ × List ℕ) → Err → List Incoming
replies ds e = map (λ x. packet x.0 x.1 none) ds ++ read_error e ∷ []

module _ (t : IpText) (laws : IsIpText t) where
  -- A source whose text is an address, and a reply that fits the buffer behind it.
  abbrev pub Fits : List ℕ × List ℕ → Type 0
  Fits x = (src : List ℕ) × (parse_addr t x.0 ≡ some src) × (length src + length x.1 ≤ udp_buf_size)

  -- The replies that `timedCopy` of the server sends on, `timedCopy` of the relaying client writes to
  -- the user: each as it was sent, in order; both return the error that ended their reads.
  pub replies_in_order :
      (any : List ℕ) (ds : List (List ℕ × List ℕ)) (e e' : Err)
      → All Fits ds
      → ((timed_copy t remote_server (replies ds e)).1 ≡ returned e)
        × (timed_copy t relay_client
              (replies (map (λ p. (any, p)) (timed_copy t remote_server (replies ds e)).0) e')
            ≡ (map (λ x. x.1) ds, returned e'))
  unfolding timed_copy
  replies_in_order any [] e e' h = (refl, refl)
  replies_in_order any ((raddr, d) ∷ ds) e e' ((src, named, fits), h) =
      let (p, out, back, other) = reply-reply t laws raddr any src d named fits in
      let (ends, rest) = replies_in_order any ds e e' h in
      (rw out ends, rw (out, back) (ap (λ x. (d ∷ x.0, x.1)) rest))
