-- ===== src/Socks/Addr.antt =====
-- SOCKS addresses of socks/socks.go: `Addr.String`, `readAddr`, `SplitAddr`, `ParseAddr`.
pub mod Split
pub mod Read
pub mod Queue
pub mod Parse
pub mod RoundTrip
use go_shadowsocks.Prelude.{
  ℕ, ◌+◌, ◌-◌, ◌*◌, ◌/◌, ◌%◌, Bool, true, false, List, [], ◌∷◌, ◌++◌, Option, none, some, length,
  take, drop, get_or, ltb, ◌==◌, if◌then◌else◌,
}
use go_shadowsocks.Errors.{Err, short_buffer, socks, Result, ok, err, panic, M, ◌>>=◌, return, fail}
use go_shadowsocks.Io.{Source, read_full}
use go_shadowsocks.Socks.Text.{IpText, itoa, join_host_port, split_host_port, parse_uint16, to4}

-- Address types, and the error ascii that the package returns.
abbrev pub atyp_ipv4 : ℕ
atyp_ipv4 = 1

abbrev pub atyp_domain_name : ℕ
atyp_domain_name = 3

abbrev pub atyp_ipv6 : ℕ
atyp_ipv6 = 4

abbrev pub err_command_not_supported : Err
err_command_not_supported = socks 7

abbrev pub err_address_not_supported : Err
err_address_not_supported = socks 8

abbrev pub info_udp_associate : Err
info_udp_associate = socks 9

-- `MaxAddrLen`
abbrev pub max_addr_len : ℕ
max_addr_len = 1 + 1 + 255 + 2

-- net.IPv4len and net.IPv6len
abbrev pub ipv4_len : ℕ
ipv4_len = 4

abbrev pub ipv6_len : ℕ
ipv6_len = 16

-- `b[i]` where i < len(b).
abbrev pub byte_at : List ℕ → ℕ → ℕ
byte_at b i = get_or b i 0

-- The 16-bit number of the two bytes at `i`, `(int(b[i])<<8) | int(b[i+1])`.
abbrev pub port_at : List ℕ → ℕ → ℕ
port_at b i = byte_at b i * 256 + byte_at b (i + 1)

-- `b[i:j]`
abbrev pub slice : List ℕ → ℕ → ℕ → List ℕ
slice b i j = take (j - i) (drop i b)

-- `SplitAddr(b)`, `none` for nil: the switch that finds the length, and the cut.
unfoldable pub addr_len : List ℕ → Option ℕ
addr_len b =
    if byte_at b 0 == atyp_domain_name
    then (if ltb (length b) 2 then none else some (1 + 1 + byte_at b 1 + 2))
    else if byte_at b 0 == atyp_ipv4
    then some (1 + ipv4_len + 2)
    else if byte_at b 0 == atyp_ipv6
    then some (1 + ipv6_len + 2)
    else none

abbrev pub cut_at : List ℕ → Option ℕ → Option (List ℕ)
cut_at b none = none
cut_at b (some n) = if ltb (length b) n then none else some (take n b)

unfoldable pub split_addr : List ℕ → Option (List ℕ)
unfolding addr_len
split_addr b = if ltb (length b) 1 then none else cut_at b (addr_len b)

-- A reader with the state `S`, by what `io.ReadFull` of it does.
module _ {S : Type 0} (rf : ℕ → M S (List ℕ)) where
  -- `readAddr(r, b)` with len(b) = room. The slice that is returned holds the bytes read.
  pub read_domain : M S (List ℕ)
  read_domain = do l ← rf 1; rest ← rf (byte_at l 0 + 2); return (atyp_domain_name ∷ (l ++ rest))

  pub read_fixed : ℕ → ℕ → M S (List ℕ)
  read_fixed atyp n = do rest ← rf n; return (atyp ∷ rest)

  pub read_by_type : List ℕ → M S (List ℕ)
  read_by_type t =
      if byte_at t 0 == atyp_domain_name
      then read_domain
      else if byte_at t 0 == atyp_ipv4
      then read_fixed atyp_ipv4 (ipv4_len + 2)
      else if byte_at t 0 == atyp_ipv6
      then read_fixed atyp_ipv6 (ipv6_len + 2)
      else fail err_address_not_supported

  pub read_addr_into : ℕ → M S (List ℕ)
  read_addr_into room s =
      if ltb room max_addr_len then (err short_buffer, s) else ((do t ← rf 1; read_by_type t) s)

  -- `ReadAddr(r)`.
  pub read_addr : M S (List ℕ)
  read_addr = read_addr_into max_addr_len

-- "baddomainname", "badipv4", "badipv6"
abbrev pub bad_domain_name : List ℕ
bad_domain_name =
    b'b' ∷ b'a' ∷ b'd' ∷ b'd' ∷ b'o' ∷ b'm' ∷ b'a' ∷ b'i' ∷ b'n' ∷ b'n' ∷ b'a' ∷ b'm' ∷ b'e' ∷ []

abbrev pub bad_ipv4 : List ℕ
bad_ipv4 = b'b' ∷ b'a' ∷ b'd' ∷ b'i' ∷ b'p' ∷ b'v' ∷ b'4' ∷ []

abbrev pub bad_ipv6 : List ℕ
bad_ipv6 = b'b' ∷ b'a' ∷ b'd' ∷ b'i' ∷ b'p' ∷ b'v' ∷ b'6' ∷ []

-- `ParseAddr(s)`, `none` for nil: the bytes in front of the port.
abbrev pub ip_bytes : List ℕ → Option (List ℕ) → List ℕ
ip_bytes ip (some ip4) = atyp_ipv4 ∷ ip4
ip_bytes ip none = atyp_ipv6 ∷ ip

-- `byte(portnum>>8), byte(portnum)`
abbrev pub port_bytes : ℕ → List ℕ
port_bytes n = n / 256 % 256 ∷ n % 256 ∷ []

abbrev pub with_port : Option (List ℕ) → Option ℕ → Option (List ℕ)
with_port none p = none
with_port (some front) none = none
with_port (some front) (some n) = some (front ++ port_bytes n)

module _ (t : IpText) where
  -- `Addr.String`; it panics on the empty address and on a lone domain type byte.
  pub domain_string : List ℕ → Result (List ℕ)
  domain_string a =
      if ltb (length a) 2
      then panic
      else if ltb (length a) (4 + byte_at a 1)
      then ok bad_domain_name
      else ok (join_host_port (slice a 2 (2 + byte_at a 1)) (itoa (port_at a (2 + byte_at a 1))))

  pub ip_addr_string : ℕ → List ℕ → List ℕ → List ℕ
  ip_addr_string n bad a =
      if ltb (length a) (1 + n + 2)
      then bad
      else join_host_port (t.ip_string (slice a 1 (1 + n))) (itoa (port_at a (1 + n)))

  pub addr_string : List ℕ → Result (List ℕ)
  addr_string a =
      if ltb (length a) 1
      then panic
      else if byte_at a 0 == atyp_domain_name
      then domain_string a
      else if byte_at a 0 == atyp_ipv4
      then ok (ip_addr_string ipv4_len bad_ipv4 a)
      else if byte_at a 0 == atyp_ipv6
      then ok (ip_addr_string ipv6_len bad_ipv6 a)
      else ok (join_host_port [] [])

  abbrev pub host_as : List ℕ → Option (List ℕ) → Option (List ℕ)
  host_as host (some ip) = some (ip_bytes ip (to4 ip))
  host_as host none =
      if ltb 255 (length host) then none else some (atyp_domain_name ∷ length host % 256 ∷ host)

  unfoldable pub host_bytes : List ℕ → Option (List ℕ)
  host_bytes host = host_as host (t.parse_ip host)

  abbrev pub parse_parts : Option (List ℕ × List ℕ) → Option (List ℕ)
  parse_parts none = none
  parse_parts (some (host, port)) = with_port (host_bytes host) (parse_uint16 port)

  unfoldable pub parse_addr : List ℕ → Option (List ℕ)
  parse_addr s = parse_parts (split_host_port s)
