-- ===== src/ShadowAead/Packet/RoundTrip.antt =====
-- Packets of shadowaead/packet.go: what `Pack` writes `Unpack` reads, and which packets are refused.
use go_shadowsocks.Prelude.{
  ℕ, ◌+◌, ◌-◌, ◌≤◌, ◌≡◌, ap, sym, List, ◌++◌, Option, some, length, take, take-append, drop-append,
  length-append, length-take, take-all, inl, inr, arith,
}
use native.Mathlib.Decide.{dec_le}
use go_shadowsocks.Errors.{Result-cases, Err, Result, ok, err, panic}
use go_shadowsocks.Io.{Source, pending, read_full}
use go_shadowsocks.Io.ReadFull.{read_full_enough, read_full_short}
use go_shadowsocks.ShadowAead.Aead.{Aead}
use go_shadowsocks.ShadowAead.Cipher.{Cipher}
use go_shadowsocks.ShadowAead.Cipher.Keys.{IsCipher}
use go_shadowsocks.ShadowAead.Packet.{
  zero_nonce, pack, seal_with, unpack, unpack_with, packed, write_packet, read_packet,
}

packed_ok :
    (net : List ℕ → Option Err) (b : List ℕ) (r : Result (List ℕ) × Source) (d : List ℕ) (k : ℕ)
    (e : Option Err)
    → (packed net b r).0 ≡ ok (k, e, some d)
    → (r.0 ≡ ok d) × (k ≡ length b) × (e ≡ net d)
unfolding packed
packed_ok net b (ok p, s) d k e h = ground arith
packed_ok net b (err x, s) d k e h = ground arith
packed_ok net b (panic, s) d k e h = ground arith

module _ (ciph : Cipher) (laws : IsCipher ciph) where
  -- What a packet is made of.
  pack_shape :
      (room : ℕ) (b : List ℕ) (rand : Source) (aead : Aead)
      → ciph.salt_len ≤ length (pending rand)
      → ciph.encrypter (take ciph.salt_len (pending rand)) ≡ ok aead
      → aead.nonce_size ≤ 128
      → ciph.salt_len + length b + aead.overhead ≤ room
      → (pack ciph room b rand).0
        ≡ ok (take ciph.salt_len (pending rand) ++ aead.seal (zero_nonce aead) b)
  unfolding pack seal_with
  pack_shape room b rand aead hr he hn hs = ground (arith, read_full_enough ciph.salt_len rand hr)

  -- A packet of `Pack` is opened by `Unpack` into any buffer that holds the plaintext.
  unpack-seal :
      (room : ℕ) (salt b : List ℕ) (aead : Aead)
      → length salt ≡ ciph.salt_len
      → ciph.encrypter salt ≡ ok aead
      → aead.nonce_size ≤ 128
      → length b ≤ room
      → unpack ciph room (salt ++ aead.seal (zero_nonce aead) b) ≡ ok b
  unfolding unpack unpack_with
  unpack-seal room salt b aead hs he hn hr =
      let a = laws.lawful salt aead he in
      ground (
        arith,
        take-append salt (aead.seal (zero_nonce aead) b) ciph.salt_len (sym hs),
        drop-append salt (aead.seal (zero_nonce aead) b) ciph.salt_len (sym hs),
        length-append salt (aead.seal (zero_nonce aead) b),
        a.seal_length (zero_nonce aead) b,
        a.unseal_seal (zero_nonce aead) b,
        laws.agrees salt,
      )

  -- What a successful `Pack` went through.
  abbrev Packed : ℕ → List ℕ → List ℕ → Type 0
  Packed room b d =
      (salt : List ℕ) × (aead : Aead) × (d ≡ salt ++ aead.seal (zero_nonce aead) b)
      × (length salt ≡ ciph.salt_len)
      × (ciph.encrypter salt ≡ ok aead)
      × (aead.nonce_size ≤ 128)
      × (ciph.salt_len + length b + aead.overhead ≤ room)

  pack_with_salt :
      (room : ℕ) (b d salt : List ℕ) (s : Source)
      → length salt ≡ ciph.salt_len
      → (seal_with ciph room b salt s).0 ≡ ok d
      → Packed room b d
  unfolding seal_with
  pack_with_salt room b d salt s hs e = elim (Result-cases (ciph.encrypter salt)) [
    | inl (aead, he) ↦
        (salt, aead, ground (arith, he), hs, he, ground (arith, he), ground (arith, he))
    | inr (inl (x, he)) ↦ absurd (ground (arith, he))
    | inr (inr he) ↦ absurd (ground (arith, he))
  ]

  pack_ok :
      (room : ℕ) (b d : List ℕ) (rand : Source) → (pack ciph room b rand).0 ≡ ok d → Packed room b d
  unfolding pack
  pack_ok room b d rand e = elim (dec_le ciph.salt_len (length (pending rand))) [
    | yes h ↦
        pack_with_salt room b d (take ciph.salt_len (pending rand)) (read_full ciph.salt_len rand).1
          (omega (arith, length-take ciph.salt_len (pending rand)))
          (ground (arith, read_full_enough ciph.salt_len rand h))
    | no h ↦ absurd (ground (arith, read_full_short ciph.salt_len rand (omega arith)))
  ]

  -- What `WriteTo` hands to the network is at most as long as its buffer, and `ReadFrom` on the other
  -- side, with room for the whole datagram, returns exactly the payload that was written.
  pub read_packet-write_packet :
      (buf_len room : ℕ) (net : List ℕ → Option Err) (b d : List ℕ) (rand : Source) (k : ℕ)
      (e : Option Err)
      → (write_packet (record { ciph = ciph; buf_len = buf_len }) net b rand).0 ≡ ok (k, e, some d)
      → length d ≤ room
      → (length d ≤ buf_len)
        × (k ≡ length b)
        × (e ≡ net d)
        × (read_packet (record { ciph = ciph; buf_len = buf_len }) room d ≡ ok b)
  unfolding write_packet read_packet
  read_packet-write_packet buf_len room net b d rand k e w hr =
      let (p, count, fate) = packed_ok net b (pack ciph buf_len b rand) d k e w in
      let (salt, aead, shape, hs, he, hn, fits) = pack_ok buf_len b d rand p in
      let size = (laws.lawful salt aead he).seal_length (zero_nonce aead) b in
      let whole = length-append salt (aead.seal (zero_nonce aead) b) in
      let shape_len = ap length shape in
      (
        omega arith,
        count,
        fate,
        ground (
          arith,
          take-all d room hr,
          unpack-seal (room - ciph.salt_len) salt b aead hs he hn (omega arith),
        ),
      )
