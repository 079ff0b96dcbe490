-- ===== src/Core/Conns/Sent.antt =====
-- core/packet.go: the datagrams between two sockets of `ListenPacket`.
use go_shadowsocks.ShadowStream.Packet.RoundTrip.{written_packet-read}
use go_shadowsocks.ShadowAead.Packet.RoundTrip.{read_packet-write_packet}
use go_shadowsocks.Core.Conns.Carried.{picked-Lawful}
use go_shadowsocks.Io.{Source}
use go_shadowsocks.Errors.{ok, Err}
use go_shadowsocks.Core.Entries.{Lawful, IsCrypto}
use go_shadowsocks.Core.Conns.{packet_conn, listen_packet, packets_read, packets_write, Sizes}
use go_shadowsocks.Prelude.{take-all, arith, ◌≤◌, none, some, length, ◌≡◌, Option, List, ℕ}
use go_shadowsocks.Core.{pick_cipher, Crypto, Cipher, dummy, aead_cipher, stream_cipher}

module _ (z : Sizes) (net : List ℕ → Option Err) (rand : Source) (b d : List ℕ) (room k : ℕ)
    (e : Option Err) where
  -- What the other socket makes of a datagram that WriteTo handed on with count and error.
  abbrev pub Arrives : Cipher → Type 0
  Arrives x =
      (k ≡ length b)
      × (e ≡ net d)
      × (packets_read (listen_packet z x (some 1, none)).0 room d ≡ ok b)

  Lawful-Arrives :
      (x : Cipher)
      → Lawful x
      → (packets_write (listen_packet z x (some 1, none)).0 net b rand).0 ≡ ok (k, e, some d)
      → length d ≤ room
      → Arrives x
  unfolding packets_write packets_read listen_packet packet_conn
  Lawful-Arrives dummy laws w hr = (ground arith, ground arith, ground (arith, take-all d room hr))
  Lawful-Arrives (aead_cipher a) laws w hr =
      let (fits, count, fate, got) =
        read_packet-write_packet a laws z.aead_packet_buf room net b d rand k e w hr in
      (count, fate, got)
  Lawful-Arrives (stream_cipher s) laws w hr =
      let (fits, count, fate, got) =
        written_packet-read s laws z.stream_packet_buf room net b d rand k e w hr in
      (count, fate, ground (arith, got))

module _ (c : Crypto) (laws : IsCrypto c) where
  -- For every cipher that `PickCipher` makes and any sizes: where WriteTo on a socket of ListenPacket
  -- hands a datagram to the network, its count is the length of `b` and its error the network's, and
  -- ReadFrom on another socket of ListenPacket, with room for the datagram, returns exactly `b`.
  pub picked_packets :
      (z : Sizes) (net : List ℕ → Option Err) (rand : Source) (b d : List ℕ) (room k : ℕ)
      (e : Option Err) (name key password : List ℕ) (x : Cipher)
      → pick_cipher c name key password ≡ ok x
      → (packets_write (listen_packet z x (some 1, none)).0 net b rand).0 ≡ ok (k, e, some d)
      → length d ≤ room
      → Arrives z net rand b d room k e x
  picked_packets z net rand b d room k e name key password x picked =
      Lawful-Arrives z net rand b d room k e x (picked-Lawful c laws name key password x picked)
