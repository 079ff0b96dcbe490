-- ===== src/Socks/Addr/Parse.antt =====
-- `ParseAddr` of socks/socks.go: every address that it returns is a well-formed SOCKS address.
use go_shadowsocks.Prelude.{
  ℕ, ◌+◌, ◌%◌, ◌≤◌, ◌≡◌, refl, ◌∙◌, ap, subst, false, List, ◌∷◌, ◌++◌, Option, none, some, length,
  take-append, length-append, IsBytes, Option-cases, inl, inr, arith,
}
use mathlib.Core.Option.{some_inj}
use native.Mathlib.Decide.{dec_le}
use go_shadowsocks.Socks.Text.{IpText, has, to4, v4_prefix, split_host_port, parse_uint16}
use go_shadowsocks.Socks.Text.To4.{to4-length}
use go_shadowsocks.Socks.Addr.Split.{cut_addr}
use go_shadowsocks.Socks.Addr.{
  addr_len, split_addr, ip_bytes, host_as, host_bytes, port_bytes, parse_addr,
}

-- What package net promises of net.ParseIP and net.IP.String.
pub record IsIpText (t : IpText) : Type 0 where
  pub parsed_length : (s ip : List ℕ) → t.parse_ip s ≡ some ip → length ip ≡ 16
  pub parse_v4 :
      (ip : List ℕ)
      → length ip ≡ 4
      → IsBytes ip
      → t.parse_ip (t.ip_string ip) ≡ some (v4_prefix ++ ip)
  pub parse_v6 : (ip : List ℕ) → length ip ≡ 16 → IsBytes ip → t.parse_ip (t.ip_string ip) ≡ some ip
  pub no_bracket :
      (ip : List ℕ) → (has b'[' (t.ip_string ip) ≡ false) × (has b']' (t.ip_string ip) ≡ false)

-- The three shapes of the bytes in front of the port.
data Front : List ℕ → Type 0 where
  v4 : {ip : List ℕ} → length ip ≡ 4 → Front (1 ∷ ip)
  v6 : {ip : List ℕ} → length ip ≡ 16 → Front (4 ∷ ip)
  domain : {l : ℕ} {host : List ℕ} → l ≡ length host → length host ≤ 255 → Front (3 ∷ l ∷ host)

whole :
    (a rest : List ℕ) (n : ℕ)
    → addr_len (a ++ rest) ≡ some n
    → n ≡ length a
    → 1 ≤ n
    → split_addr (a ++ rest) ≡ some a
whole a rest n e h k =
    cut_addr (a ++ rest) n e (omega (arith, length-append a rest)) k
    ∙ ap some (take-append a rest n h)

Front-split :
    (front rest : List ℕ) (n : ℕ)
    → Front front
    → split_addr ((front ++ port_bytes n) ++ rest) ≡ some (front ++ port_bytes n)
unfolding addr_len
Front-split _ rest n (v4 {ip = ip} h) =
    whole (1 ∷ (ip ++ port_bytes n)) rest 7 refl (omega (arith, length-append ip (port_bytes n)))
      (omega arith)
Front-split _ rest n (v6 {ip = ip} h) =
    whole (4 ∷ (ip ++ port_bytes n)) rest 19 refl (omega (arith, length-append ip (port_bytes n)))
      (omega arith)
Front-split _ rest n (domain {l = l} {host = host} e h) =
    whole (3 ∷ l ∷ (host ++ port_bytes n)) rest (2 + l + 2) (ground arith)
      (omega (arith, length-append host (port_bytes n))) (omega arith)

module _ (t : IpText) (laws : IsIpText t) where
  ip-Front :
      (ip : List ℕ) (o : Option (List ℕ)) → to4 ip ≡ o → length ip ≡ 16 → Front (ip_bytes ip o)
  ip-Front ip none e h = v6 h
  ip-Front ip (some ip4) e h = v4 (to4-length ip ip4 e)

  host_as-Front :
      (host front : List ℕ) (o : Option (List ℕ))
      → t.parse_ip host ≡ o
      → host_as t host o ≡ some front
      → Front front
  host_as-Front host front (some ip) p e =
      subst Front {x = ip_bytes ip (to4 ip)} (some_inj.0 e)
        (ip-Front ip (to4 ip) refl (laws.parsed_length host ip p))
  host_as-Front host front none p e = elim (dec_le (length host) 255) [
    | yes h ↦ subst Front {x = 3 ∷ length host % 256 ∷ host} (ground arith) (domain (omega arith) h)
    | no h ↦ absurd (ground arith)
  ]

  -- Every address that `ParseAddr` returns is one that `SplitAddr` cuts off whole, whatever follows.
  pub parse_addr-split_addr :
      (s a rest : List ℕ) → parse_addr t s ≡ some a → split_addr (a ++ rest) ≡ some a
  unfolding parse_addr
  parse_addr-split_addr s a rest e = elim (Option-cases (split_host_port s)) [
    | inl p ↦ absurd (ground (arith, p))
    | inr ((host, port), p) ↦ elim (Option-cases (host_bytes t host)) [
      | inl q ↦ absurd (ground (arith, p, q))
      | inr (front, q) ↦ elim (Option-cases (parse_uint16 port)) [
        | inl r ↦ absurd (ground (arith, p, q, r))
        | inr (n, r) ↦
            subst (λ b. split_addr (b ++ rest) ≡ some b) {x = front ++ port_bytes n}
              (ground (arith, p, q, r))
              (Front-split front rest n
                (unfold host_bytes in host_as-Front host front (t.parse_ip host) refl q))
      ]
    ]
  ]
