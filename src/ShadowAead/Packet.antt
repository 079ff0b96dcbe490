-- ===== src/ShadowAead/Packet.antt =====
-- shadowaead/packet.go: `Pack`, `Unpack` and `packetConn`. A slice `dst` matters by its length only;
-- the bytes of rand.Reader are a source.
pub mod RoundTrip
use go_shadowsocks.Prelude.{
  ℕ, ◌+◌, ◌-◌, Bool, true, false, List, [], ◌∷◌, ◌++◌, Option, none, some, length, take, drop,
  replicate, ltb, leb, if◌then◌else◌,
}
use go_shadowsocks.Errors.{
  Err, short_buffer, short_packet, auth_failed, Result, ok, err, panic, M, ◌>>=◌, ◌>>◌, return,
  fail,
}
use go_shadowsocks.Io.{Source, read_full}
use go_shadowsocks.ShadowAead.Aead.{Aead}
use go_shadowsocks.ShadowAead.Cipher.{Cipher}

-- `_zerononce[:aead.NonceSize()]`, which panics for a nonce of more than 128 bytes.
abbrev pub zero_nonce : Aead → List ℕ
zero_nonce a = replicate a.nonce_size 0

abbrev pub lift : {S A : Type 0} → Result A → M S A
lift r s = (r, s)

-- A slice expression or an index that panics where the test fails.
abbrev pub in_range : {S : Type 0} → Bool → M S (Unit {0})
in_range true s = (ok tt, s)
in_range false s = (panic, s)

-- `if bad { return nil, e }`.
abbrev pub refuse_if : {S : Type 0} → Bool → Err → M S (Unit {0})
refuse_if true e s = (err e, s)
refuse_if false e s = (ok tt, s)

-- `aead.Seal` and `aead.Open` under the zero nonce.
abbrev pub zero_open : Aead → List ℕ → Result (List ℕ)
zero_open a c = elim (a.unseal (zero_nonce a) c) [ some p ↦ ok p | none ↦ err auth_failed ]

-- `Pack(dst, plaintext, ciph)` with len(dst) = cap(dst) = room, from the salt on.
unfoldable pub seal_with : Cipher → ℕ → List ℕ → List ℕ → M Source (List ℕ)
seal_with ciph room plaintext salt = do
  aead ← lift (ciph.encrypter salt)
  refuse_if (ltb room (ciph.salt_len + length plaintext + aead.overhead)) short_buffer
  in_range (leb aead.nonce_size 128)
  return (salt ++ aead.seal (zero_nonce aead) plaintext)

unfoldable pub pack : Cipher → ℕ → List ℕ → M Source (List ℕ)
pack ciph room plaintext = do
  in_range (leb ciph.salt_len room)
  salt ← read_full ciph.salt_len
  seal_with ciph room plaintext salt

-- `Unpack(dst, pkt, ciph)` with len(dst) = room.
pub unpack_with : Cipher → ℕ → List ℕ → Aead → Result (List ℕ)
unpack_with ciph room pkt aead =
    if ltb (length pkt) (ciph.salt_len + aead.overhead)
    then err short_packet
    else if ltb (ciph.salt_len + room + aead.overhead) (length pkt)
    then err short_buffer
    else if ltb 128 aead.nonce_size
    then panic
    else zero_open aead (drop ciph.salt_len pkt)

abbrev pub on_ok : {A B : Type 0} → Result A → (A → Result B) → Result B
on_ok (ok a) f = f a
on_ok (err e) f = err e
on_ok panic f = panic

pub unpack : Cipher → ℕ → List ℕ → Result (List ℕ)
unpack ciph room pkt =
    if ltb (length pkt) ciph.salt_len
    then err short_packet
    else on_ok (ciph.decrypter (take ciph.salt_len pkt)) (unpack_with ciph room pkt)

-- `packetConn`: the cipher and len(buf), which is packetConnBufSize. Its lock makes the writes a
-- sequence.
pub record PacketConn : Type 0 where
  pub ciph : Cipher
  pub buf_len : ℕ

-- `WriteTo(b, addr)`: `net` is the embedded PacketConn's WriteTo, which returns an error or nil. The
-- result is the count, the error, and the datagram that was handed to the network.
unfoldable pub packed :
    (List ℕ → Option Err)
    → List ℕ
    → Result (List ℕ) × Source
    → Result (ℕ × Option Err × Option (List ℕ)) × Source
packed net b (ok pkt, s) = (ok (length b, net pkt, some pkt), s)
packed net b (err e, s) = (ok (0, some e, none), s)
packed net b (panic, s) = (panic, s)

unfoldable pub write_packet :
    PacketConn → (List ℕ → Option Err) → List ℕ → M Source (ℕ × Option Err × Option (List ℕ))
write_packet c net b s = packed net b (pack c.ciph c.buf_len b s)

-- `ReadFrom(b)` with len(b) = room, on a datagram of the network: what `b` holds at the front
-- (`copy(b, bb)`, whose length is the count), or the error. The datagram is cut to the buffer.
pub read_packet : PacketConn → ℕ → List ℕ → Result (List ℕ)
read_packet c room datagram =
    if ltb room c.ciph.salt_len
    then panic
    else unpack c.ciph (room - c.ciph.salt_len) (take room datagram)
