-- ===== src/Socks/Runs.antt =====
-- Package socks at concrete inputs, with a text form of IP addresses that no host name has: the
-- number 1000, and each byte raised by 1000.
use go_shadowsocks.Prelude.{
  ℕ, ◌≡◌, refl, ◌+◌, ◌-◌, ◌<◌, ◌≤◌, true, false, List, [], ◌∷◌, ◌++◌, Option, none, some, length,
  ascii, ◌==◌, if◌then◌else◌, arith, length-append,
}
use go_shadowsocks.Errors.{Err, eof, ok, err}
use go_shadowsocks.Io.{read_full, Source, chunk, closed, pending}
use go_shadowsocks.Socks.Text.{
  IpText, has, v4_prefix, split_host_port, last_colon, parse_uint16, parse_digits,
}
use go_shadowsocks.Socks.Addr.{
  host_bytes, addr_len, split_addr, parse_addr, addr_string, read_addr, max_addr_len,
}
use go_shadowsocks.Socks.Addr.Parse.{IsIpText, parse_addr-split_addr}
use go_shadowsocks.Socks.Addr.Split.{split_addr_self_delimiting}
use go_shadowsocks.Socks.Addr.Read.{Outcome, read_addr-split_addr}
use go_shadowsocks.Socks.Addr.RoundTrip.{IsPlain, parse_addr-string}
use go_shadowsocks.Socks.Handshake.{method_reply, handshake}
use go_shadowsocks.Socks.Handshake.Requests.{
  talking, answer, reply, handshake_request, handshake_no_addr,
}

abbrev pub raise : List ℕ → List ℕ
raise [] = []
raise (b ∷ bs) = (b + 1000) ∷ raise bs

abbrev pub lower : List ℕ → List ℕ
lower [] = []
lower (b ∷ bs) = (b - 1000) ∷ lower bs

abbrev pub by_size : List ℕ → Option (List ℕ)
by_size ip =
    if length ip == 4 then some (v4_prefix ++ ip) else if length ip == 16 then some ip else none

abbrev pub toy_parse : List ℕ → Option (List ℕ)
toy_parse [] = none
toy_parse (x ∷ s) = if x == 1000 then by_size (lower s) else none

abbrev pub toy_text : IpText
toy_text = record { parse_ip = toy_parse; ip_string = λ ip. 1000 ∷ raise ip }

lower-raise : (ip : List ℕ) → lower (raise ip) ≡ ip
lower-raise [] = refl
lower-raise (b ∷ bs) = ground (arith, lower-raise bs)

has_raised : (c : ℕ) (ip : List ℕ) → c < 1000 → has c (raise ip) ≡ false
unfolding has
has_raised c [] h = refl
has_raised c (b ∷ bs) h = ground (arith, has_raised c bs h)

no_bracket : (c : ℕ) (ip : List ℕ) → c < 1000 → has c (1000 ∷ raise ip) ≡ false
unfolding has
no_bracket c ip h = ground (arith, has_raised c ip h)

toy_parse-length : (s ip : List ℕ) → toy_parse s ≡ some ip → length ip ≡ 16
toy_parse-length [] ip e = ground arith
toy_parse-length (x ∷ s) ip e = ground (arith, length-append v4_prefix (lower s))

pub toy_text-IsIpText : IsIpText toy_text
toy_text-IsIpText = record {
  parsed_length = toy_parse-length;
  parse_v4 = λ ip h b. ground (arith, lower-raise ip);
  parse_v6 = λ ip h b. ground (arith, lower-raise ip);
  no_bracket = λ ip. (no_bracket b'[' ip (omega arith), no_bracket b']' ip (omega arith));
}

-- "ab:80" and its address.
abbrev pub host_text : List ℕ
host_text = ascii "ab:80"

abbrev pub host_addr : List ℕ
host_addr = 3 ∷ 2 ∷ b'a' ∷ b'b' ∷ 0 ∷ 80 ∷ []

split_addr_self_delimiting_example :
    (host_addr ++ 1 ∷ 2 ∷ [] ≡ host_addr ++ 1 ∷ 2 ∷ [])
    × (length host_addr ≤ max_addr_len)
    × (split_addr (host_addr ++ 9 ∷ []) ≡ some host_addr)
unfolding split_addr addr_len
split_addr_self_delimiting_example =
    split_addr_self_delimiting (host_addr ++ 1 ∷ 2 ∷ []) host_addr (9 ∷ []) (omega arith) refl

read_addr-split_addr_example :
    Outcome
      (chunk host_addr (closed eof))
      (host_addr ++ [])
      (read_addr read_full (chunk host_addr (closed eof)))
      (split_addr (host_addr ++ []))
read_addr-split_addr_example = read_addr-split_addr (chunk host_addr (closed eof))

pub host_parsed : parse_addr toy_text host_text ≡ some host_addr
unfolding parse_addr split_host_port last_colon has host_bytes parse_uint16 parse_digits
host_parsed = refl

parse_addr-split_addr_example : split_addr (host_addr ++ 1 ∷ 2 ∷ []) ≡ some host_addr
parse_addr-split_addr_example =
    parse_addr-split_addr toy_text toy_text-IsIpText host_text host_addr (1 ∷ 2 ∷ []) host_parsed

parse_addr-string_example :
    (text : List ℕ) × (addr_string toy_text (1 ∷ 10 ∷ 0 ∷ 0 ∷ 1 ∷ 31 ∷ 144 ∷ []) ≡ ok text)
    × (parse_addr toy_text text ≡ some (1 ∷ 10 ∷ 0 ∷ 0 ∷ 1 ∷ 31 ∷ 144 ∷ []))
parse_addr-string_example =
    parse_addr-string toy_text toy_text-IsIpText (1 ∷ 10 ∷ 0 ∷ 0 ∷ 1 ∷ 31 ∷ 144 ∷ [])
      (IsPlain.v4 10 0 0 1 31 144 (omega arith))

-- A client that offers one method and asks to connect, in two segments.
abbrev request : Source
request = chunk (5 ∷ 1 ∷ []) (chunk (0 ∷ 5 ∷ 1 ∷ 0 ∷ (host_addr ++ 7 ∷ [])) (closed eof))

handshake_request_example :
    (s' : Source) × (handshake toy_text true [] (talking request []) ≡ (
      answer toy_text true [] 1 host_addr,
      talking s' (method_reply ++ reply toy_text true [] 1),
    ))
    × (pending s' ≡ 7 ∷ [])
unfolding split_addr addr_len
handshake_request_example =
    handshake_request toy_text true [] request 5 5 1 0 (0 ∷ []) host_addr (7 ∷ []) [] refl refl

handshake_no_addr_example :
    (s' : Source) × (e : Err) × (handshake toy_text true []
        (talking (chunk (5 ∷ 1 ∷ 0 ∷ 5 ∷ 1 ∷ 0 ∷ 9 ∷ []) (closed eof)) [])
      ≡ (err e, talking s' method_reply))
unfolding split_addr addr_len
handshake_no_addr_example =
    handshake_no_addr toy_text true [] (chunk (5 ∷ 1 ∷ 0 ∷ 5 ∷ 1 ∷ 0 ∷ 9 ∷ []) (closed eof)) 5 5 1 0
      (0 ∷ []) (9 ∷ []) [] refl refl
