-- ===== src/Socks/Addr/RoundTrip.antt =====
-- `ParseAddr` undoes `Addr.String` of socks/socks.go.
use go_shadowsocks.Prelude.{
  ℕ, ◌+◌, ◌-◌, ◌*◌, ◌/◌, ◌%◌, ◌≤◌, ◌<◌, ◌≡◌, refl, ◌∙◌, ap, sym, false, List, [], ◌∷◌, ◌++◌, none,
  some, length, take-append, get_or-append, length-append, IsBytes, arith,
}
use go_shadowsocks.Errors.{ok}
use go_shadowsocks.Socks.Text.{IpText, has, to4, join_host_port, itoa}
use go_shadowsocks.Socks.Text.To4.{to4-v4_prefix}
use go_shadowsocks.Socks.Text.Decimal.{has-itoa, parse_uint16-itoa}
use go_shadowsocks.Socks.Text.HostPort.{split_host_port-join}
use go_shadowsocks.Socks.Addr.Parse.{IsIpText}
use go_shadowsocks.Socks.Addr.{
  host_bytes, port_bytes, parse_addr, domain_string, ip_addr_string, addr_string,
}

module _ (t : IpText) (laws : IsIpText t) where
  -- A host in front of a printed port.
  parse_joined :
      (host front : List ℕ) (n : ℕ)
      → has b'[' host ≡ false
      → has b']' host ≡ false
      → host_bytes t host ≡ some front
      → n < 65536
      → parse_addr t (join_host_port host (itoa n)) ≡ some (front ++ port_bytes n)
  unfolding parse_addr
  parse_joined host front n e₁ e₂ e h = ground (
    arith,
    split_host_port-join host (itoa n) e₁ e₂ (has-itoa b':' n refl) (has-itoa b'[' n refl)
        (has-itoa b']' n refl),
    parse_uint16-itoa n h,
  )

  -- The addresses whose text names them: an IPv4 address, an IPv6 address that stands for no IPv4
  -- address, and a host name with no bracket that reads as no IP address.
  pub data IsPlain : List ℕ → Type 0 where
    v4 :
        (p q r s hi lo : ℕ)
        → IsBytes (p ∷ q ∷ r ∷ s ∷ hi ∷ lo ∷ [])
        → IsPlain (1 ∷ p ∷ q ∷ r ∷ s ∷ hi ∷ lo ∷ [])
    v6 :
        (ip : List ℕ) (hi lo : ℕ)
        → length ip ≡ 16
        → IsBytes ip
        → IsBytes (hi ∷ lo ∷ [])
        → to4 ip ≡ none
        → IsPlain (4 ∷ (ip ++ hi ∷ lo ∷ []))
    domain :
        (host : List ℕ) (hi lo : ℕ)
        → length host ≤ 255
        → has b'[' host ≡ false
        → has b']' host ≡ false
        → t.parse_ip host ≡ none
        → IsBytes (hi ∷ lo ∷ [])
        → IsPlain (3 ∷ length host ∷ (host ++ hi ∷ lo ∷ []))

  same_port : (hi lo : ℕ) → IsBytes (hi ∷ lo ∷ []) → port_bytes (hi * 256 + lo) ≡ hi ∷ lo ∷ []
  same_port hi lo h = cc (high, low)
    where
      high : (hi * 256 + lo) / 256 % 256 ≡ hi
      high = omega arith

      low : (hi * 256 + lo) % 256 ≡ lo
      low = omega arith

  v6_string :
      (ip : List ℕ) (hi lo : ℕ)
      → length ip ≡ 16
      → addr_string t (4 ∷ (ip ++ hi ∷ lo ∷ []))
        ≡ ok (join_host_port (t.ip_string ip) (itoa (hi * 256 + lo)))
  unfolding addr_string ip_addr_string
  v6_string ip hi lo h = ground (
    arith,
    length-append ip (hi ∷ lo ∷ []),
    take-append ip (hi ∷ lo ∷ []) 16 (sym h),
    get_or-append ip (hi ∷ lo ∷ []) 16 0 0 (omega arith),
    get_or-append ip (hi ∷ lo ∷ []) 17 1 0 (omega arith),
  )

  domain_string_lem :
      (host : List ℕ) (hi lo : ℕ)
      → addr_string t (3 ∷ length host ∷ (host ++ hi ∷ lo ∷ []))
        ≡ ok (join_host_port host (itoa (hi * 256 + lo)))
  unfolding addr_string domain_string
  domain_string_lem host hi lo = ground (
    arith,
    length-append host (hi ∷ lo ∷ []),
    take-append host (hi ∷ lo ∷ []) (2 + length host - 2) (omega arith),
    get_or-append (3 ∷ length host ∷ host) (hi ∷ lo ∷ []) (2 + length host) 0 0 (omega arith),
    get_or-append (3 ∷ length host ∷ host) (hi ∷ lo ∷ []) (2 + length host + 1) 1 0 (omega arith),
  )

  joined_same :
      (host front : List ℕ) (hi lo : ℕ)
      → has b'[' host ≡ false
      → has b']' host ≡ false
      → host_bytes t host ≡ some front
      → IsBytes (hi ∷ lo ∷ [])
      → parse_addr t (join_host_port host (itoa (hi * 256 + lo))) ≡ some (front ++ hi ∷ lo ∷ [])
  joined_same host front hi lo e₁ e₂ e h =
      parse_joined host front (hi * 256 + lo) e₁ e₂ e (omega arith)
      ∙ ap (λ b. some (front ++ b)) (same_port hi lo h)

  -- How `ParseAddr` reads the host of each kind.
  host_v4 :
      (ip : List ℕ) → length ip ≡ 4 → IsBytes ip → host_bytes t (t.ip_string ip) ≡ some (1 ∷ ip)
  unfolding host_bytes
  host_v4 ip h b = ground (arith, laws.parse_v4 ip h b, to4-v4_prefix ip h)

  host_v6 :
      (ip : List ℕ)
      → length ip ≡ 16
      → IsBytes ip
      → to4 ip ≡ none
      → host_bytes t (t.ip_string ip) ≡ some (4 ∷ ip)
  unfolding host_bytes
  host_v6 ip h b e = ground (arith, laws.parse_v6 ip h b)

  host_domain :
      (host : List ℕ)
      → length host ≤ 255
      → t.parse_ip host ≡ none
      → host_bytes t host ≡ some (3 ∷ length host ∷ host)
  unfolding host_bytes
  host_domain host h e = ground arith

  -- For these, `ParseAddr` of the text that `String` prints is the address again.
  pub parse_addr-string :
      (a : List ℕ)
      → IsPlain a
      → (text : List ℕ) × (addr_string t a ≡ ok text) × (parse_addr t text ≡ some a)
  parse_addr-string _ (v4 p q r s hi lo h) =
      let ip : List ℕ = p ∷ q ∷ r ∷ s ∷ [] in
      (
        join_host_port (t.ip_string ip) (itoa (hi * 256 + lo)),
        unfold addr_string ip_addr_string in refl,
        joined_same (t.ip_string ip) (1 ∷ ip) hi lo (laws.no_bracket ip).0 (laws.no_bracket ip).1
            (host_v4 ip refl (omega arith)) (omega arith),
      )
  parse_addr-string _ (v6 ip hi lo h b pb n) = (
    join_host_port (t.ip_string ip) (itoa (hi * 256 + lo)),
    v6_string ip hi lo h,
    joined_same (t.ip_string ip) (4 ∷ ip) hi lo (laws.no_bracket ip).0 (laws.no_bracket ip).1
        (host_v6 ip h b n) pb,
  )
  parse_addr-string _ (domain host hi lo h e₁ e₂ n pb) = (
    join_host_port host (itoa (hi * 256 + lo)),
    domain_string_lem host hi lo,
    joined_same host (3 ∷ length host ∷ host) hi lo e₁ e₂ (host_domain host h n) pb,
  )
