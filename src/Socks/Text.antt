-- ===== src/Socks/Text.antt =====
-- The text functions of Go's net and strconv that package socks uses, on strings of bytes: Itoa,
-- ParseUint(s, 10, 16), JoinHostPort, SplitHostPort, IP.To4.
pub mod Decimal
pub mod HostPort
pub mod To4
use go_shadowsocks.Prelude.{
  ℕ, zero, suc, ◌+◌, ◌-◌, ◌*◌, ◌/◌, ◌%◌, Bool, true, false, ◌&&◌, ◌||◌, List, [], ◌∷◌, ◌++◌, Option,
  none, some, length, take, drop, replicate, ltb, leb, ◌==◌, if◌then◌else◌,
}

-- strconv.Itoa, for the numbers below 10 ^ fuel that the program prints.
unfoldable pub digits : ℕ → ℕ → List ℕ
digits zero n = []
digits (suc fuel) n =
    let front = digits fuel (n / 10) in
    if ltb n 10 then (48 + n) ∷ [] else front ++ (48 + n % 10) ∷ []

pub itoa : ℕ → List ℕ
itoa n = digits 20 n

abbrev pub is_digit : ℕ → Bool
is_digit c = leb 48 c && leb c 57

-- strconv.ParseUint(s, 10, 16), `none` for any of its errors.
unfoldable pub parse_digits : List ℕ → ℕ → Option ℕ
parse_digits [] n = some n
parse_digits (c ∷ cs) n =
    let rest = parse_digits cs (n * 10 + (c - 48)) in if is_digit c then rest else none

abbrev pub up_to : ℕ → Option ℕ → Option ℕ
up_to top none = none
up_to top (some n) = if leb n top then some n else none

unfoldable pub parse_uint16 : List ℕ → Option ℕ
parse_uint16 [] = none
parse_uint16 (c ∷ cs) = up_to 65535 (parse_digits (c ∷ cs) 0)

unfoldable pub has : ℕ → List ℕ → Bool
has c [] = false
has c (x ∷ xs) = x == c || has c xs

-- net.JoinHostPort.
pub join_host_port : List ℕ → List ℕ → List ℕ
join_host_port host port =
    if has b':' host then b'[' ∷ (host ++ b']' ∷ b':' ∷ port) else host ++ b':' ∷ port

-- The parts before and after the last colon.
unfoldable pub last_colon : List ℕ → Option (List ℕ × List ℕ)
last_colon [] = none
last_colon (c ∷ cs) = elim (last_colon cs) [
  | some (h, p) ↦ some (c ∷ h, p)
  | none ↦ if c == b':' then some ([], cs) else none
]

-- What stands before a closing bracket that is the first one and the last character.
unfoldable pub before_bracket : List ℕ → Option (List ℕ)
before_bracket [] = none
before_bracket (c ∷ []) = if c == b']' then some [] else none
before_bracket (c ∷ d ∷ cs) =
    let rest = before_bracket (d ∷ cs) in
    if c == b']' then none else elim rest [ none ↦ none | some x ↦ some (c ∷ x) ]

abbrev pub refuse : {A : Type 0} → Bool → Option A → Option A
refuse true o = none
refuse false o = o

abbrev pub bracketed_host : List ℕ → Option (List ℕ) → Option (List ℕ × List ℕ)
bracketed_host port none = none
bracketed_host port (some host) =
    refuse (has b'[' host || (has b'[' port || has b']' port)) (some (host, port))

abbrev pub plain_host : List ℕ → List ℕ → Option (List ℕ × List ℕ)
plain_host host port = refuse (has b':' host) (
    refuse ((has b'[' host || has b'[' port) || (has b']' host || has b']' port))
      (some (host, port)))

abbrev pub split_parts : List ℕ → List ℕ → Option (List ℕ × List ℕ)
split_parts [] port = plain_host [] port
split_parts (c ∷ host) port =
    if c == b'[' then bracketed_host port (before_bracket host) else plain_host (c ∷ host) port

-- net.SplitHostPort, `none` for any of its errors.
abbrev pub with_parts : Option (List ℕ × List ℕ) → Option (List ℕ × List ℕ)
with_parts none = none
with_parts (some (h, p)) = split_parts h p

unfoldable pub split_host_port : List ℕ → Option (List ℕ × List ℕ)
split_host_port s = with_parts (last_colon s)

-- net.IP.To4: a 4-byte address, or a 16-byte one with the IPv4-in-IPv6 prefix.
abbrev pub v4_prefix : List ℕ
v4_prefix = 0 ∷ 0 ∷ 0 ∷ 0 ∷ 0 ∷ 0 ∷ 0 ∷ 0 ∷ 0 ∷ 0 ∷ 0xff ∷ 0xff ∷ []

unfoldable pub same_bytes : List ℕ → List ℕ → Bool
same_bytes [] [] = true
same_bytes [] (y ∷ ys) = false
same_bytes (x ∷ xs) [] = false
same_bytes (x ∷ xs) (y ∷ ys) = x == y && same_bytes xs ys

unfoldable pub to4 : List ℕ → Option (List ℕ)
to4 ip =
    if length ip == 4
    then some ip
    else if length ip == 16 && same_bytes (take 12 ip) v4_prefix
    then some (drop 12 ip)
    else none

-- net.ParseIP and net.IP.String, which the model takes as parameters. A parsed address has 16 bytes.
pub record IpText : Type 0 where
  pub parse_ip : List ℕ → Option (List ℕ)
  pub ip_string : List ℕ → List ℕ
