-- ===== src/Transparent.antt =====
-- tcp_linux.go: the target of a redirected connection. The getsockopt call stands outside: it gives the
-- bytes of the address and of the port, which are big-endian, or an error.
pub mod Runs
use go_shadowsocks.Prelude.{refl, length-append, take-append, arith, subst, false, ◌<◌, true, none}
use go_shadowsocks.Prelude.{◌⊎◌, ◌++◌, some, if◌then◌else◌, ◌≡◌, Option, ◌∷◌, length, ℕ, Bool, List}
use go_shadowsocks.Errors.{Err, Result, ok, err, panic}
use go_shadowsocks.Socks.Addr.{atyp_ipv4, atyp_ipv6, split_addr, addr_len}

-- `getorigdst` and `ipv6_getorigdst`.
unfoldable pub get_orig_dst : Result (List ℕ × List ℕ) → Result (List ℕ)
get_orig_dst (ok (raw, port)) = ok (atyp_ipv4 ∷ (raw ++ port))
get_orig_dst (err e) = err e
get_orig_dst panic = panic

unfoldable pub ipv6_get_orig_dst : Result (List ℕ × List ℕ) → Result (List ℕ)
ipv6_get_orig_dst (ok (raw, port)) = ok (atyp_ipv6 ∷ (raw ++ port))
ipv6_get_orig_dst (err e) = err e
ipv6_get_orig_dst panic = panic

-- `getOrigDst`: whether the connection is a TCP connection, the errors of File and SetNonblock, and the
-- two calls of getsockopt.
abbrev pub not_tcp : Err
not_tcp = Err.env 0

unfoldable pub orig_dst :
    Bool → Option Err → Option Err → Bool → (Bool → Result (List ℕ × List ℕ)) → Result (List ℕ)
orig_dst false file nonblock ipv6 sockopt = err not_tcp
orig_dst true (some e) nonblock ipv6 sockopt = err e
orig_dst true none (some e) ipv6 sockopt = err e
orig_dst true none none true sockopt = ipv6_get_orig_dst (sockopt true)
orig_dst true none none false sockopt = get_orig_dst (sockopt false)

-- The bytes that the system returns: 4 or 16, and 2.
abbrev pub Sized : Bool → Result (List ℕ × List ℕ) → Type 0
Sized ipv6 r =
    (raw port : List ℕ)
    → r ≡ ok (raw, port)
    → (length raw ≡ (if ipv6 then 16 else 4)) × (length port ≡ 2)

whole :
    (a rest : List ℕ) (n : ℕ)
    → n ≡ length a
    → 0 < n
    → addr_len (a ++ rest) ≡ some n
    → split_addr (a ++ rest) ≡ some a
unfolding split_addr
whole a rest n len some_bytes e =
    ground (arith, len, some_bytes, e, take-append a rest n len, length-append a rest)

ipv4_whole :
    (r : Result (List ℕ × List ℕ)) (a rest : List ℕ)
    → Sized false r
    → get_orig_dst r ≡ ok a
    → split_addr (a ++ rest) ≡ some a
unfolding get_orig_dst addr_len
ipv4_whole (ok (raw, port)) a rest size e =
    let (long, two) = size raw port refl in
    let is : 1 ∷ (raw ++ port) ≡ a = cc e in
    subst (λ x. split_addr (x ++ rest) ≡ some x) is
      (whole (1 ∷ (raw ++ port)) rest 7 (omega (arith, long, two, length-append raw port))
        (omega arith) refl)
ipv4_whole (err x) a rest size e = absurd (cc e)
ipv4_whole panic a rest size e = absurd (cc e)

ipv6_whole :
    (r : Result (List ℕ × List ℕ)) (a rest : List ℕ)
    → Sized true r
    → ipv6_get_orig_dst r ≡ ok a
    → split_addr (a ++ rest) ≡ some a
unfolding ipv6_get_orig_dst addr_len
ipv6_whole (ok (raw, port)) a rest size e =
    let (long, two) = size raw port refl in
    let is : 4 ∷ (raw ++ port) ≡ a = cc e in
    subst (λ x. split_addr (x ++ rest) ≡ some x) is
      (whole (4 ∷ (raw ++ port)) rest 19 (omega (arith, long, two, length-append raw port))
        (omega arith) refl)
ipv6_whole (err x) a rest size e = absurd (cc e)
ipv6_whole panic a rest size e = absurd (cc e)

-- The target that getOrigDst builds from an address of 4 or 16 bytes and a port of 2 is one that the
-- remote end cuts off whole, whatever follows it.
pub orig_dst-split_addr :
    (tcp : Bool) (file nonblock : Option Err) (ipv6 : Bool)
    (sockopt : Bool → Result (List ℕ × List ℕ)) (a rest : List ℕ)
    → ((b : Bool) → Sized b (sockopt b))
    → orig_dst tcp file nonblock ipv6 sockopt ≡ ok a
    → split_addr (a ++ rest) ≡ some a
unfolding orig_dst
orig_dst-split_addr false file nonblock ipv6 sockopt a rest size e = absurd (cc e)
orig_dst-split_addr true (some x) nonblock ipv6 sockopt a rest size e = absurd (cc e)
orig_dst-split_addr true none (some x) ipv6 sockopt a rest size e = absurd (cc e)
orig_dst-split_addr true none none true sockopt a rest size e =
    ipv6_whole (sockopt true) a rest (size true) e
orig_dst-split_addr true none none false sockopt a rest size e =
    ipv4_whole (sockopt false) a rest (size false) e
