-- ===== src/Udp/Relay.antt =====
-- udp.go: what `udpLocal`, `udpSocksLocal`, `udpRemote` and `timedCopy` make of a datagram. The
-- network's calls stand outside: a datagram is what ReadFrom delivered, before it is cut to the
-- buffer.
pub mod RoundTrip
use go_shadowsocks.Prelude.{
  ℕ, zero, suc, ◌+◌, ◌-◌, List, [], ◌∷◌, ◌++◌, Option, none, some, length, take, drop, ltb,
  if◌then◌else◌,
}
use go_shadowsocks.Errors.{Result, ok, err, panic}
use go_shadowsocks.Socks.Text.{IpText}
use go_shadowsocks.Socks.Addr.{split_addr, parse_addr}

-- `mode`.
pub data Mode : Type 0 where
  remote_server relay_client socks_client : Mode

-- `udpBufSize`.
abbrev pub udp_buf_size : ℕ
udp_buf_size = 65536

-- `udpLocal`: the target stands in front of the buffer. The datagram that is written to the server.
pub local_request : List ℕ → List ℕ → List ℕ
local_request tgt datagram = tgt ++ take (udp_buf_size - length tgt) datagram

-- `udpSocksLocal`: `buf[3:n]`, which panics for n < 3.
pub socks_request : List ℕ → Result (List ℕ)
socks_request datagram =
    let buf = take udp_buf_size datagram in if ltb (length buf) 3 then panic else ok (drop 3 buf)

-- `udpRemote`: the target address and the payload, or `none` where the datagram is skipped.
abbrev pub split_off : List ℕ → Option (List ℕ) → Option (List ℕ × List ℕ)
split_off buf none = none
split_off buf (some tgt) = some (tgt, drop (length tgt) buf)

unfoldable pub remote_request : List ℕ → Option (List ℕ × List ℕ)
remote_request datagram = let buf = take udp_buf_size datagram in split_off buf (split_addr buf)

abbrev pub or_nil : Option (List ℕ) → List ℕ
or_nil none = []
or_nil (some a) = a

module _ (t : IpText) where
  -- `timedCopy`: what it writes for a datagram from `raddr`, whose text is the second argument. The
  -- slice `buf[:len(srcAddr)+n]` panics where the address makes the datagram longer than the buffer.
  pub reply : Mode → List ℕ → List ℕ → Result (List ℕ)
  reply remote_server raddr datagram =
      let buf = take udp_buf_size datagram in
      let src_addr = or_nil (parse_addr t raddr) in
      if ltb udp_buf_size (length src_addr + length buf) then panic else ok (src_addr ++ buf)
  reply relay_client raddr datagram =
      let buf = take udp_buf_size datagram in ok (drop (length (or_nil (split_addr buf))) buf)
  reply socks_client raddr datagram = ok (0 ∷ 0 ∷ 0 ∷ take udp_buf_size datagram)
