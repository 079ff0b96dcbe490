-- ===== src/Tcp.antt =====
-- tcp.go: one direction of a tunnel through two ends over AEAD connections. The connection to the
-- server and the connection to the target are new; dialing is an argument.
pub mod Tunnel
pub mod Relay
pub mod Sessions
pub mod Runs
use go_shadowsocks.Prelude.{ℕ, suc, ◌+◌, List, [], Option, none, some, length}
use go_shadowsocks.Errors.{Err, Result, ok, err, panic, M}
use go_shadowsocks.Io.{Source, pending, Sink}
use go_shadowsocks.Io.Fill.{fill}
use go_shadowsocks.Socks.Addr.{read_addr}
use go_shadowsocks.ShadowAead.Cipher.{Cipher}
use go_shadowsocks.ShadowAead.Conn.{
  ReadSide, raw_in, opened_in, WriteSide, raw_out, conn_read, conn_write, conn_read_from,
  conn_write_to,
}

module _ (ciph : Cipher) (mask : ℕ) where
  -- `tcpLocal` from `rc = shadow(rc)` on, and `io.Copy(left, right)` of `relay`, which calls
  -- `left.ReadFrom(right)`: the error, the connection, the client. `none`: a panic.
  abbrev pub copied :
      Option (ℕ × Option Err × WriteSide × Source) → Option (Option Err × WriteSide × Source)
  copied none = none
  copied (some (n, e, side, client)) = some (e, side, client)

  abbrev pub relay_up :
      Source
      → Source
      → Option (ℕ × Option Err × WriteSide)
      → Option (Option Err × WriteSide × Source)
  relay_up rand client none = none
  relay_up rand client (some (n, some e, side)) = some (some e, side, client)
  relay_up rand client (some (n, none, side)) = copied (conn_read_from ciph mask rand client side)

  pub local_end : Source → List ℕ → Source → Sink → Option (Option Err × WriteSide × Source)
  local_end rand tgt client w = relay_up rand client (conn_write ciph mask rand tgt (raw_out w))

  -- The bytes that a read side has still to receive, a bound for its reads.
  abbrev pub to_come : ReadSide → ℕ
  to_come (raw_in s) = length (pending s)
  to_come (opened_in a r) = length r.leftover + length (pending r.source)

  -- `io.ReadFull(c, b)` with len(b) = k.
  pub conn_read_full : ℕ → M ReadSide (List ℕ)
  conn_read_full k side = fill (conn_read ciph mask) (k + suc (to_come side)) 0 k side

  -- `tcpRemote` from `c = shadow(c)` on, and `io.Copy(right, left)` of `relay`, which calls
  -- `left.WriteTo(right)`: the target that was dialed, and the result of the copy.
  abbrev pub Served : Type 0
  Served = Result (List ℕ × Option (ℕ × Option Err × ReadSide × Sink))

  abbrev pub relay_down : List ℕ → ReadSide → Result Sink → Served
  relay_down tgt side (ok w) = ok (tgt, conn_write_to ciph mask side w)
  relay_down tgt side (err e) = err e
  relay_down tgt side panic = panic

  abbrev pub dialed : (List ℕ → Result Sink) → Result (List ℕ) × ReadSide → Served
  dialed dial (ok tgt, side) = relay_down tgt side (dial tgt)
  dialed dial (err e, side) = err e
  dialed dial (panic, side) = panic

  pub remote_end : (List ℕ → Result Sink) → Source → Served
  remote_end dial s = dialed dial (read_addr conn_read_full (raw_in s))
