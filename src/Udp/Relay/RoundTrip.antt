-- ===== src/Udp/Relay/RoundTrip.antt =====
-- The two ends of the UDP relay of udp.go fit together.
use go_shadowsocks.Prelude.{
  ℕ, ◌+◌, ◌-◌, ◌≤◌, ◌≡◌, refl, ap, List, ◌∷◌, ◌++◌, some, length, take, drop, length-append,
  take-all, drop-append, ltb, if◌then◌else◌, arith,
}
use go_shadowsocks.Errors.{ok, panic}
use go_shadowsocks.Socks.Text.{IpText}
use go_shadowsocks.Socks.Addr.{split_addr, parse_addr}
use go_shadowsocks.Socks.Addr.Parse.{IsIpText, parse_addr-split_addr}
use go_shadowsocks.Udp.Relay.{
  Mode, remote_server, relay_client, socks_client, udp_buf_size, local_request, socks_request,
  remote_request, reply, or_nil,
}

remote_request-append :
    (a d : List ℕ)
    → split_addr (a ++ d) ≡ some a
    → length a + length d ≤ udp_buf_size
    → remote_request (a ++ d) ≡ some (a, d)
unfolding remote_request
remote_request-append a d h fits =
    rw (take-all (a ++ d) udp_buf_size (omega (arith, length-append a d)), h)
      (ap (λ p. some (a, p)) (drop-append a d _ refl))

past_three :
    (buf : List ℕ) (x y z : ℕ) (p : List ℕ)
    → buf ≡ x ∷ y ∷ z ∷ p
    → (if ltb (length buf) 3 then panic else ok (drop 3 buf)) ≡ ok p
past_three buf x y z p e = rw e (ground arith)

module _ (t : IpText) (laws : IsIpText t) where
  -- A datagram that `udpLocal` forwards for a target that `ParseAddr` accepted reaches `udpRemote` as
  -- that target and exactly the datagram's bytes, if both fit the buffer.
  pub local_request-remote_request :
      (target tgt d : List ℕ)
      → parse_addr t target ≡ some tgt
      → length tgt + length d ≤ udp_buf_size
      → remote_request (local_request tgt d) ≡ some (tgt, d)
  unfolding local_request
  local_request-remote_request target tgt d h fits =
      rw (take-all d (udp_buf_size - length tgt) (omega arith))
        (remote_request-append tgt d (parse_addr-split_addr t laws target tgt d h) fits)

  -- A datagram of a SOCKS client, with its three bytes of RSV and FRAG and an address that `ParseAddr`
  -- makes, reaches `udpRemote` through `udpSocksLocal` as that address and the payload.
  pub socks_request-remote_request :
      (x y z : ℕ) (target tgt d : List ℕ)
      → parse_addr t target ≡ some tgt
      → 3 + length tgt + length d ≤ udp_buf_size
      → (p : List ℕ) × (socks_request (x ∷ y ∷ z ∷ (tgt ++ d)) ≡ ok p)
        × (remote_request p ≡ some (tgt, d))
  unfolding socks_request
  socks_request-remote_request x y z target tgt d h fits = (
    tgt ++ d,
    past_three (take udp_buf_size (x ∷ y ∷ z ∷ (tgt ++ d))) x y z (tgt ++ d)
        (take-all (x ∷ y ∷ z ∷ (tgt ++ d)) udp_buf_size (omega (arith, length-append tgt d))),
    remote_request-append tgt d (parse_addr-split_addr t laws target tgt d h) (omega arith),
  )

  -- A reply from an address whose text `ParseAddr` accepts reaches the user of `udpLocal` as it was
  -- sent, and a SOCKS client as the same bytes behind three zeros and the address they came from, if
  -- address and reply fit the buffer.
  pub reply-reply :
      (raddr any src d : List ℕ)
      → parse_addr t raddr ≡ some src
      → length src + length d ≤ udp_buf_size
      → (p : List ℕ) × (reply t remote_server raddr d ≡ ok p)
        × (reply t relay_client any p ≡ ok d)
        × (reply t socks_client any p ≡ ok (0 ∷ 0 ∷ 0 ∷ (src ++ d)))
  unfolding reply
  reply-reply raddr any src d h fits =
      let whole = take-all d udp_buf_size (omega arith) in
      let all = take-all (src ++ d) udp_buf_size (omega (arith, length-append src d)) in
      (
        src ++ d,
        ground (arith, whole, h),
        rw (all, parse_addr-split_addr t laws raddr src d h) (ap ok (drop-append src d _ refl)),
        rw all refl,
      )

  -- `timedCopy` never panics in any role on a datagram that leaves room for an address.
  pub reply_total :
      (m : Mode) (raddr d : List ℕ)
      → length (or_nil (parse_addr t raddr)) + length d ≤ udp_buf_size
      → (p : List ℕ) × (reply t m raddr d ≡ ok p)
  unfolding reply
  reply_total remote_server raddr d fits =
      (or_nil (parse_addr t raddr) ++ d, ground (arith, take-all d udp_buf_size (omega arith)))
  reply_total relay_client raddr d fits = (_, refl)
  reply_total socks_client raddr d fits = (_, refl)
