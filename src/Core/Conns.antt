-- ===== src/Core/Conns.antt =====
-- core/cipher.go, core/stream.go and core/packet.go: the connections that a cipher makes, and the
-- package variables of shadowaead and shadowstream that size their buffers. The network is an
-- argument: a connection is what its reader delivers and what was written to it.
pub mod Carried
pub mod Sent
pub mod Runs
use go_shadowsocks.Prelude.{length, take, ℕ, ◌*◌, Bool, true, false, List, Option, none, some}
use go_shadowsocks.Errors.{err, panic, ok, Result, M, Err}
use go_shadowsocks.Io.{Source, Sink, Conn, write}
use go_shadowsocks.ShadowAead.Cipher.{Cipher as AeadCipher}
use go_shadowsocks.ShadowStream.Cipher.{Cipher as StreamCipher}
use go_shadowsocks.ShadowAead.Conn as Aead
use go_shadowsocks.ShadowStream.Conn as Stream
use go_shadowsocks.ShadowAead.Packet as AeadPacket
use go_shadowsocks.ShadowStream.Packet as StreamPacket
use go_shadowsocks.ShadowAead.Packet.{PacketConn as AeadPackets}
use go_shadowsocks.ShadowStream.Packet.{PacketConn as StreamPackets}
use go_shadowsocks.Core.{Cipher, dummy, aead_cipher, stream_cipher}

-- `payloadSizeMask`, `connBufSize` and the two `packetConnBufSize`.
pub record Sizes : Type 0 where
  pub payload_mask : ℕ
  pub conn_buf : ℕ
  pub aead_packet_buf : ℕ
  pub stream_packet_buf : ℕ

abbrev pub initial_sizes : Sizes
initial_sizes = record {
  payload_mask = 16383;
  conn_buf = 8 * 1024;
  aead_packet_buf = 4 * 1024;
  stream_packet_buf = 4 * 1024;
}

-- The setters of core; a size is below 2^63, which int(size) keeps.
unfoldable pub set_stream_buffer_size : ℕ → Sizes → Sizes
set_stream_buffer_size size z = record z { conn_buf = size }

unfoldable pub set_aead_payload_size : ℕ → Sizes → Sizes
set_aead_payload_size size z = record z { payload_mask = size }

unfoldable pub set_packet_conn_buffer_size : ℕ → Sizes → Sizes
set_packet_conn_buffer_size size z = record z { stream_packet_buf = size; aead_packet_buf = size }

-- The net.Conn that `StreamConn` returns, over a connection or nil.
pub data Wrapped : Type 0 where
  plain : Option Conn → Wrapped
  aead_wrapped : AeadCipher → Option Conn → Wrapped
  stream_wrapped : StreamCipher → Option Conn → Wrapped

-- `StreamConn(c)` of `dummy`, `aeadCipher` and `streamCipher`.
unfoldable pub stream_conn : Cipher → Option Conn → Wrapped
stream_conn dummy c = plain c
stream_conn (aead_cipher a) c = aead_wrapped a c
stream_conn (stream_cipher s) c = stream_wrapped s c

-- `c != nil`. A wrapper is a pointer to a new struct, whatever is in it.
unfoldable pub is_set : Wrapped → Bool
is_set (plain none) = false
is_set (plain (some c)) = true
is_set (aead_wrapped a c) = true
is_set (stream_wrapped s c) = true

-- `Dial`, on what net.Dial returns.
unfoldable pub dial : Cipher → Option Conn × Option Err → Wrapped × Option Err
dial ciph (c, e) = (stream_conn ciph c, e)

-- `listener`: the listener of package net, a number or nil, and the cipher.
pub record Listener : Type 0 where
  pub inner : Option ℕ
  pub ciph : Cipher

-- `Listen`, on what net.Listen returns.
unfoldable pub listen : Cipher → Option ℕ × Option Err → Listener × Option Err
listen ciph (l, e) = (record { inner = l; ciph = ciph }, e)

-- `Accept`; `accepts` is the Accept of the embedded listener, and none is a panic on a nil one.
abbrev accept_from :
    (ℕ → Option Conn × Option Err) → Cipher → Option ℕ → Option (Wrapped × Option Err)
accept_from accepts ciph none = none
accept_from accepts ciph (some l) = let (c, e) = accepts l in some (stream_conn ciph c, e)

unfoldable pub accept : (ℕ → Option Conn × Option Err) → Listener → Option (Wrapped × Option Err)
accept accepts l = accept_from accepts l.ciph l.inner

-- `PacketConn(c)` of the three ciphers: the socket, or nil, and the cipher with its buffer.
pub data Packets : Type 0 where
  plain_packets : Option ℕ → Packets
  aead_packets : Option ℕ → AeadPackets → Packets
  stream_packets : Option ℕ → StreamPackets → Packets

unfoldable pub packet_conn : Sizes → Cipher → Option ℕ → Packets
packet_conn z dummy c = plain_packets c
packet_conn z (aead_cipher a) c = aead_packets c (record { ciph = a; buf_len = z.aead_packet_buf })
packet_conn z (stream_cipher s) c =
    stream_packets c (record { ciph = s; buf_len = z.stream_packet_buf })

-- `ListenPacket`, on what net.ListenPacket returns.
unfoldable pub listen_packet : Sizes → Cipher → Option ℕ × Option Err → Packets × Option Err
listen_packet z ciph (c, e) = (packet_conn z ciph c, e)

-- `WriteTo(b, addr)` of a socket: the count, the error, and what the network was given. `net` is the
-- WriteTo below.
abbrev plain_sent :
    (List ℕ → Option Err) → List ℕ → Source → Result (ℕ × Option Err × Option (List ℕ)) × Source
plain_sent net b rand = (ok (length b, net b, some b), rand)

unfoldable pub packets_write :
    Packets → (List ℕ → Option Err) → List ℕ → M Source (ℕ × Option Err × Option (List ℕ))
packets_write (plain_packets none) net b rand = (panic, rand)
packets_write (plain_packets (some c)) net b rand = plain_sent net b rand
packets_write (aead_packets none k) net b rand = (panic, rand)
packets_write (aead_packets (some c) k) net b rand = AeadPacket.write_packet k net b rand
packets_write (stream_packets none k) net b rand = (panic, rand)
packets_write (stream_packets (some c) k) net b rand = StreamPacket.write_packet k net b rand

-- `ReadFrom(p)` with len(p) = room, where the network delivers the datagram `d`: the bytes of `p`.
abbrev payload_of : Result (ℕ × List ℕ × Option Err) → Result (List ℕ)
payload_of (ok (n, bs, none)) = ok bs
payload_of (ok (n, bs, some e)) = err e
payload_of (err e) = err e
payload_of panic = panic

unfoldable pub packets_read : Packets → ℕ → List ℕ → Result (List ℕ)
packets_read (plain_packets none) room d = panic
packets_read (plain_packets (some c)) room d = ok (take room d)
packets_read (aead_packets none k) room d = panic
packets_read (aead_packets (some c) k) room d = AeadPacket.read_packet k room d
packets_read (stream_packets none k) room d = panic
packets_read (stream_packets (some c) k) room d =
    payload_of (StreamPacket.read_packet k room (d, none))

-- A connection in use: its two sides, as they are behind what was done with it.
pub data Open : Type 0 where
  plain_open : Source → Sink → Open
  aead_open : AeadCipher → Aead.ReadSide → Aead.WriteSide → Open
  stream_open : StreamCipher → Stream.ReadSide → Stream.WriteSide → Open

-- `NewConn` of the two packages: nothing is read or written yet. None is a nil pointer.
unfoldable pub opened : Wrapped → Option Open
opened (plain none) = none
opened (plain (some c)) = some (plain_open c.input c.output)
opened (aead_wrapped a none) = none
opened (aead_wrapped a (some c)) = some (aead_open a (Aead.raw_in c.input) (Aead.raw_out c.output))
opened (stream_wrapped s none) = none
opened (stream_wrapped s (some c)) =
    some (stream_open s (Stream.raw_in c.input) (Stream.raw_out c.output))

-- `Write(b)` of the connection: the count, the error, the connection; none is a panic.
abbrev aead_written :
    AeadCipher
    → Aead.ReadSide
    → Option (ℕ × Option Err × Aead.WriteSide)
    → Option (ℕ × Option Err × Open)
aead_written a r none = none
aead_written a r (some (n, e, w)) = some (n, e, aead_open a r w)

abbrev stream_written :
    StreamCipher
    → Stream.ReadSide
    → Option (ℕ × Option Err × Stream.WriteSide)
    → Option (ℕ × Option Err × Open)
stream_written s r none = none
stream_written s r (some (n, e, w)) = some (n, e, stream_open s r w)

unfoldable pub open_write : Sizes → Source → List ℕ → Open → Option (ℕ × Option Err × Open)
open_write z rand b (plain_open r w) = let (n, e, w') = write b w in some (n, e, plain_open r w')
open_write z rand b (aead_open a r w) = aead_written a r (Aead.conn_write a z.payload_mask rand b w)
open_write z rand b (stream_open s r w) =
    stream_written s r (Stream.conn_write s z.conn_buf rand b w)

-- io.Copy(w, conn), which calls `WriteTo` where the connection has it; `copy` is what it does for a
-- connection of package net.
module _ (copy : Source → Sink → Option (ℕ × Option Err × Source × Sink)) where
  abbrev aead_copied :
      AeadCipher
      → Aead.WriteSide
      → Option (ℕ × Option Err × Aead.ReadSide × Sink)
      → Option (ℕ × Option Err × Open × Sink)
  aead_copied a w none = none
  aead_copied a w (some (n, e, r, d)) = some (n, e, aead_open a r w, d)

  abbrev stream_copied :
      StreamCipher
      → Stream.WriteSide
      → Option (ℕ × Option Err × Stream.ReadSide × Sink)
      → Option (ℕ × Option Err × Open × Sink)
  stream_copied s w none = none
  stream_copied s w (some (n, e, r, d)) = some (n, e, stream_open s r w, d)

  abbrev plain_copied :
      Sink → Option (ℕ × Option Err × Source × Sink) → Option (ℕ × Option Err × Open × Sink)
  plain_copied w none = none
  plain_copied w (some (n, e, r, d)) = some (n, e, plain_open r w, d)

  unfoldable pub open_copy : Sizes → Open → Sink → Option (ℕ × Option Err × Open × Sink)
  open_copy z (plain_open r w) d = plain_copied w (copy r d)
  open_copy z (aead_open a r w) d = aead_copied a w (Aead.conn_write_to a z.payload_mask r d)
  open_copy z (stream_open s r w) d = stream_copied s w (Stream.conn_write_to s z.conn_buf r d)

-- What was written to the connection below.
unfoldable pub open_wire : Open → List ℕ
open_wire (plain_open r w) = w.sent
open_wire (aead_open a r (Aead.raw_out w)) = w.sent
open_wire (aead_open a r (Aead.opened_out k w)) = w.sink.sent
open_wire (stream_open s r (Stream.raw_out w)) = w.sent
open_wire (stream_open s r (Stream.opened_out w)) = w.sink.sent
