-- ===== src/ShadowStream/Packet/RoundTrip.antt =====
-- Packets of shadowstream/packet.go: what `WriteTo` sends `ReadFrom` reads.
use go_shadowsocks.Prelude.{
  ap, ℕ, ◌+◌, ◌-◌, ◌≤◌, ◌<◌, ◌≡◌, sym, List, [], ◌++◌, Option, none, some, length, take,
  take-append, drop-append, length-append, length-take, take-all, arith,
}
use native.Mathlib.Decide.{dec_le}
use go_shadowsocks.Errors.{Err, short_buffer, short_packet, ok}
use go_shadowsocks.Io.{Source, pending, ending, full_error}
use go_shadowsocks.Io.ReadFull.{read_full_enough, read_full_short}
use go_shadowsocks.ShadowStream.Cipher.{Cipher, xor_from}
use go_shadowsocks.ShadowStream.Cipher.Laws.{IsCipher, xor_from-undoes_all, length-xor_from}
use go_shadowsocks.ShadowStream.Packet.{PacketConn, pack, unpack, write_packet, read_packet}

module _ (ciph : Cipher) (laws : IsCipher ciph) where
  -- The packet of `b` under an IV.
  abbrev packet : List ℕ → List ℕ → List ℕ
  packet iv b = iv ++ xor_from (laws.enc iv) [] b

  unpack-packet :
      (room : ℕ) (iv b : List ℕ)
      → length iv ≡ ciph.iv_size
      → length b ≤ room
      → unpack ciph room (packet iv b) ≡ ok b
  unfolding unpack
  unpack-packet room iv b sized h =
      let c = xor_from (laws.enc iv) [] b in
      ground (
        arith,
        length-append iv c,
        length-xor_from (laws.enc iv) [] b,
        take-append iv c ciph.iv_size (sym sized),
        drop-append iv c ciph.iv_size (sym sized),
        laws.decrypts iv sized,
        xor_from-undoes_all (laws.dec iv) (laws.enc iv) (laws.undoes iv) b,
      )

  packet-length :
      (iv b : List ℕ) → length iv ≡ ciph.iv_size → length (packet iv b) ≡ ciph.iv_size + length b
  packet-length iv b sized = omega (
    arith,
    sized,
    length-append iv (xor_from (laws.enc iv) [] b),
    length-xor_from (laws.enc iv) [] b,
  )

  -- What `WriteTo` hands to the network is the packet of `b` under an IV and fits its buffer.
  written_packet :
      (buf_len : ℕ) (net : List ℕ → Option Err) (b d : List ℕ) (rand : Source) (k : ℕ)
      (e : Option Err)
      → (write_packet (record { ciph = ciph; buf_len = buf_len }) net b rand).0 ≡ ok (k, e, some d)
      → (iv : List ℕ) × (length iv ≡ ciph.iv_size)
        × (ciph.iv_size + length b ≤ buf_len)
        × (k ≡ length b)
        × (e ≡ net d)
        × (d ≡ packet iv b)
  unfolding write_packet pack
  written_packet buf_len net b d rand k e w = elim (dec_le (ciph.iv_size + length b) buf_len) [
    | no h ↦ absurd (ground arith)
    | yes fits ↦ elim (dec_le ciph.iv_size (length (pending rand))) [
      | no h ↦ absurd (ground (arith, read_full_short ciph.iv_size rand (omega arith)))
      | yes enough ↦
          let iv = take ciph.iv_size (pending rand) in
          let sized : length iv ≡ ciph.iv_size =
            omega (arith, length-take ciph.iv_size (pending rand)) in
          (
            iv,
            sized,
            fits,
            ground (arith, read_full_enough ciph.iv_size rand enough, laws.encrypts iv sized),
            ground (arith, read_full_enough ciph.iv_size rand enough, laws.encrypts iv sized),
            ground (arith, read_full_enough ciph.iv_size rand enough, laws.encrypts iv sized),
          )
    ]
  ]

  -- What `WriteTo` hands to the network, the other side's `ReadFrom`, with room for it, returns as the
  -- payload.
  pub written_packet-read :
      (buf_len room : ℕ) (net : List ℕ → Option Err) (b d : List ℕ) (rand : Source) (k : ℕ)
      (e : Option Err)
      → (write_packet (record { ciph = ciph; buf_len = buf_len }) net b rand).0 ≡ ok (k, e, some d)
      → length d ≤ room
      → (length d ≤ buf_len)
        × (k ≡ length b)
        × (e ≡ net d)
        × (read_packet (record { ciph = ciph; buf_len = buf_len }) room (d, none)
            ≡ ok (length b, b, none))
  unfolding read_packet
  written_packet-read buf_len room net b d rand k e w hr =
      let (iv, sized, fits, count, fate, shape) = written_packet buf_len net b d rand k e w in
      let len = packet-length iv b sized in
      let size = ap length shape in
      (
        omega arith,
        count,
        fate,
        ground (
          arith,
          take-all d room hr,
          unpack-packet (room - ciph.iv_size) iv b sized (omega arith),
        ),
      )

  -- `WriteTo(b)` with a buffer that holds the IV and `b`, and enough random bytes, sends one datagram;
  -- the peer's `ReadFrom`, with room for the datagram, returns exactly `b`.
  pub stream_packet_round_trip :
      (buf_len room : ℕ) (net : List ℕ → Option Err) (b : List ℕ) (rand : Source)
      → ciph.iv_size + length b ≤ buf_len
      → ciph.iv_size + length b ≤ room
      → ciph.iv_size ≤ length (pending rand)
      → (d : List ℕ) × ((write_packet (record { ciph = ciph; buf_len = buf_len }) net b rand).0
          ≡ ok (length b, net d, some d))
        × (read_packet (record { ciph = ciph; buf_len = buf_len }) room (d, none)
            ≡ ok (length b, b, none))
  unfolding write_packet read_packet pack
  stream_packet_round_trip buf_len room net b rand hb hr h =
      let iv = take ciph.iv_size (pending rand) in
      let c = xor_from (laws.enc iv) [] b in
      let sized : length iv ≡ ciph.iv_size =
        omega (arith, length-take ciph.iv_size (pending rand)) in
      let len : length (iv ++ c) ≡ ciph.iv_size + length b =
        omega (arith, length-append iv c, length-xor_from (laws.enc iv) [] b) in
      (
        packet iv b,
        ground (arith, read_full_enough ciph.iv_size rand h, laws.encrypts iv sized),
        ground (
          arith,
          take-all (packet iv b) room (omega arith),
          unpack-packet (room - ciph.iv_size) iv b sized (omega arith),
        ),
      )

  -- What `WriteTo` refuses: a payload that does not fit the buffer, and a source of random bytes that
  -- ends before the IV. Nothing is sent then.
  pub stream_packet_refused :
      (buf_len : ℕ) (net : List ℕ → Option Err) (b : List ℕ) (rand : Source)
      → let sent = (write_packet (record { ciph = ciph; buf_len = buf_len }) net b rand).0 in
        (buf_len < ciph.iv_size + length b → sent ≡ ok (0, some short_buffer, none))
        × (ciph.iv_size + length b ≤ buf_len
            → length (pending rand) < ciph.iv_size
            → sent ≡ ok (0, some (full_error (length (pending rand)) (ending rand)), none))
  unfolding write_packet pack
  stream_packet_refused buf_len net b rand =
      (λ h. ground arith, λ h short. ground (arith, read_full_short ciph.iv_size rand short))

-- `ReadFrom` of a datagram that is shorter than an IV fails, whatever the cipher, and returns the
-- length of the datagram as the count.
pub stream_packet_short :
    (c : PacketConn) (room : ℕ) (d : List ℕ)
    → length d < c.ciph.iv_size
    → c.ciph.iv_size ≤ room
    → read_packet c room (d, none) ≡ ok (length d, [], some short_packet)
unfolding read_packet unpack
stream_packet_short c room d h hr = ground (arith, take-all d room (omega arith))
