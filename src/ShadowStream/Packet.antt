-- ===== src/ShadowStream/Packet.antt =====
-- shadowstream/packet.go: `Pack`, `Unpack` and `packetConn`. A slice `dst` matters by its length only;
-- the bytes of rand.Reader are a source.
pub mod RoundTrip
use go_shadowsocks.Prelude.{
  ℕ, ◌+◌, ◌-◌, List, [], ◌∷◌, ◌++◌, Option, none, some, length, take, drop, ltb, if◌then◌else◌,
}
use go_shadowsocks.Errors.{Err, short_buffer, short_packet, Result, ok, err, panic, M}
use go_shadowsocks.Io.{Source, read_full}
use go_shadowsocks.ShadowStream.Cipher.{Cipher, Keyed, xor_key_stream}

-- `Pack(dst, plaintext, s)` with len(dst) = room.
abbrev pub encrypted : List ℕ → List ℕ → Result Keyed → Result (List ℕ)
encrypted iv plaintext (ok k) = ok (iv ++ (xor_key_stream k plaintext).0)
encrypted iv plaintext (err e) = err e
encrypted iv plaintext panic = panic

abbrev pub with_iv : Cipher → List ℕ → Result (List ℕ) × Source → Result (List ℕ) × Source
with_iv ciph plaintext (ok iv, s) = (encrypted iv plaintext (ciph.encrypter iv), s)
with_iv ciph plaintext (err e, s) = (err e, s)
with_iv ciph plaintext (panic, s) = (panic, s)

pub pack : Cipher → ℕ → List ℕ → M Source (List ℕ)
pack ciph room plaintext rand =
    if ltb room (ciph.iv_size + length plaintext)
    then (err short_buffer, rand)
    else with_iv ciph plaintext (read_full ciph.iv_size rand)

-- `Unpack(dst, pkt, s)` with len(dst) = room.
abbrev pub decrypted : List ℕ → Result Keyed → Result (List ℕ)
decrypted c (ok k) = ok (xor_key_stream k c).0
decrypted c (err e) = err e
decrypted c panic = panic

pub unpack : Cipher → ℕ → List ℕ → Result (List ℕ)
unpack ciph room pkt =
    if ltb (length pkt) ciph.iv_size
    then err short_packet
    else if ltb room (length pkt - ciph.iv_size)
    then err short_buffer
    else decrypted (drop ciph.iv_size pkt) (ciph.decrypter (take ciph.iv_size pkt))

-- `packetConn`: the cipher and len(buf), which is packetConnBufSize. Its lock makes the writes a
-- sequence.
pub record PacketConn : Type 0 where
  pub ciph : Cipher
  pub buf_len : ℕ

-- `WriteTo(b, addr)`: `net` is the embedded PacketConn's WriteTo, which returns an error or nil. The
-- result is the count, the error, and the datagram that was handed to the network.
abbrev pub packed :
    (List ℕ → Option Err)
    → List ℕ
    → Result (List ℕ) × Source
    → Result (ℕ × Option Err × Option (List ℕ)) × Source
packed net b (ok pkt, s) = (ok (length b, net pkt, some pkt), s)
packed net b (err e, s) = (ok (0, some e, none), s)
packed net b (panic, s) = (panic, s)

pub write_packet :
    PacketConn → (List ℕ → Option Err) → List ℕ → M Source (ℕ × Option Err × Option (List ℕ))
write_packet c net b s = packed net b (pack c.ciph c.buf_len b s)

-- `ReadFrom(b)` with len(b) = room, on a datagram of the network or its error: the count, the bytes
-- of `b` that `copy(b, bb)` wrote, the error. The datagram is cut to the buffer, and a refused one
-- returns its own length as the count.
abbrev pub unpacked : ℕ → Result (List ℕ) → Result (ℕ × List ℕ × Option Err)
unpacked n (ok bb) = ok (length bb, bb, none)
unpacked n (err e) = ok (n, [], some e)
unpacked n panic = panic

pub read_packet : PacketConn → ℕ → List ℕ × Option Err → Result (ℕ × List ℕ × Option Err)
read_packet c room (datagram, some e) = ok (length (take room datagram), [], some e)
read_packet c room (datagram, none) =
    if ltb room c.ciph.iv_size
    then panic
    else unpacked (length (take room datagram))
        (unpack c.ciph (room - c.ciph.iv_size) (take room datagram))
