-- ===== src/Core/Conns/Carried.antt =====
-- core/stream.go: what one end writes to a connection of `Dial`, the other end reads from a connection
-- of `Accept`, for every cipher that `PickCipher` makes.
use go_shadowsocks.Prelude.{
  subst, ℕ, ◌≤◌, ◌≡◌, refl, ◌∙◌, List, [], Option, none, some, length, take, inl, inr, arith,
}
use go_shadowsocks.Errors.{Err, eof, ok}
use go_shadowsocks.Io.{Source, Sink, Conn, pending, ending, closed}
use go_shadowsocks.Io.Reads.{copy_error}
use go_shadowsocks.Io.Separate.{Separate}
use go_shadowsocks.ShadowAead.Aead.{Aead}
use go_shadowsocks.ShadowAead.Stream.Decode.{IsMask}
use go_shadowsocks.ShadowAead.Cipher.{Cipher as AeadCipher}
use go_shadowsocks.ShadowStream.Cipher.{Cipher as StreamCipher}
use go_shadowsocks.ShadowAead.Conn as Aead
use go_shadowsocks.ShadowAead.Conn.RoundTrip.{wire, first_conn_write-Sent, conn_write_to-Sent}
use go_shadowsocks.ShadowStream.Conn as Stream
use go_shadowsocks.ShadowStream.Conn.RoundTrip.{
  wire as iv_wire, first_write-Sent, stream_write_to-Sent,
}
use go_shadowsocks.ShadowStream.Stream.Copy.{open_sink}
use go_shadowsocks.Core.{Cipher, dummy, aead_cipher, stream_cipher, Crypto, pick_cipher}
use go_shadowsocks.Core.Entries.{IsCrypto, Lawful}
use go_shadowsocks.Core.Pick.{pick_cipher-Picked}
use go_shadowsocks.Core.Conns.{
  Sizes, Open, plain_open, aead_open, stream_open, Wrapped, plain, aead_wrapped, stream_wrapped,
  stream_conn, opened, dial, listen, accept, open_write, open_copy, open_wire,
}

-- What the first Write needs: a payload size that is a bit mask and a salt that the AEAD package takes,
-- or buffers that hold the IV, and enough random bytes.
abbrev pub Ready : Sizes → Source → Cipher → Type 0
Ready z rand dummy = Unit {0}
Ready z rand (aead_cipher a) =
    IsMask z.payload_mask
    × (a.salt_len ≤ length (pending rand))
    × ((k : Aead) × (a.encrypter (take a.salt_len (pending rand)) ≡ ok k))
Ready z rand (stream_cipher s) =
    (1 ≤ z.conn_buf) × (s.iv_size ≤ z.conn_buf) × (s.iv_size ≤ length (pending rand))

-- A connection below that takes everything, and one that delivers what `s` does.
abbrev pub near_end : Conn
near_end = record { input = closed eof; output = open_sink [] }

abbrev pub far_end : Source → Conn
far_end s = record { input = s; output = open_sink [] }

-- What the first Write of `b` on a connection of `Dial` puts on the wire.
abbrev pub wire_of_written : Option (ℕ × Option Err × Open) → List ℕ
wire_of_written none = []
wire_of_written (some (n, e, o)) = open_wire o

abbrev pub wire_of : Sizes → Source → List ℕ → Option Open → List ℕ
wire_of z rand b none = []
wire_of z rand b (some o) = wire_of_written (open_write z rand b o)

unfoldable pub on_wire : Sizes → Source → List ℕ → Cipher → List ℕ
on_wire z rand b x = wire_of z rand b (opened (dial x (some near_end, none)).0)

-- io.Copy of a connection of package net, into a writer that takes everything.
abbrev pub CopiesAll : (Source → Sink → Option (ℕ × Option Err × Source × Sink)) → Type 0
CopiesAll copy =
    (s : Source)
    → copy s (open_sink [])
      ≡ some (length (pending s), copy_error (ending s), closed (ending s), open_sink (pending s))

module _ (copy : Source → Sink → Option (ℕ × Option Err × Source × Sink)) (copies : CopiesAll copy)
    (z : Sizes) (rand : Source) (b : List ℕ) (s : Source) where
  -- The two ends, from `Dial` and `Accept` on.
  abbrev pub Carries : Cipher → Type 0
  Carries x =
      (near : Open) × (c : Wrapped) × (far : Open) × (sent : Open) × (done : Open) × (opened
          (dial x (some near_end, none)).0
        ≡ some near)
      × (open_write z rand b near ≡ some (length b, none, sent))
      × (accept (λ l. (some (far_end s), none)) (listen x (some 1, none)).0 ≡ some (c, none))
      × (opened c ≡ some far)
      × (open_copy copy z far (open_sink []) ≡ some (length b, none, done, open_sink b))

  aead_wire :
      (a : AeadCipher) (r : Aead.ReadSide) (w : Aead.WriteSide)
      → open_wire (aead_open a r w) ≡ wire w
  unfolding open_wire
  aead_wire a r (Aead.raw_out w) = refl
  aead_wire a r (Aead.opened_out k w) = refl

  stream_wire :
      (c : StreamCipher) (r : Stream.ReadSide) (w : Stream.WriteSide)
      → open_wire (stream_open c r w) ≡ iv_wire w
  unfolding open_wire
  stream_wire c r (Stream.raw_out w) = refl
  stream_wire c r (Stream.opened_out w) = refl

  Lawful-Carries :
      (x : Cipher)
      → Lawful x
      → Ready z rand x
      → Separate s
      → pending s ≡ on_wire z rand b x
      → ending s ≡ eof
      → Carries x
  unfolding stream_conn opened open_write open_copy on_wire dial listen accept
  Lawful-Carries dummy laws ready apart e end =
      let came : pending s ≡ b = unfold open_wire in e in
      (
        plain_open (closed eof) (open_sink []),
        plain (some (far_end s)),
        plain_open s (open_sink []),
        plain_open (closed eof) (open_sink b),
        plain_open (closed (ending s)) (open_sink []),
        refl,
        refl,
        refl,
        refl,
        ground (arith, copies s, came, end),
      )
  Lawful-Carries (aead_cipher a) laws (mask, salts, (k, made)) apart e end =
      let (side, run, sent) =
        first_conn_write-Sent a laws z.payload_mask mask rand k b salts made in
      let (side', read) =
        conn_write_to-Sent a laws z.payload_mask mask side b s sent
          (e ∙ rw run (aead_wire a (Aead.raw_in (closed eof)) side)) end in
      (
        aead_open a (Aead.raw_in (closed eof)) (Aead.raw_out (open_sink [])),
        aead_wrapped a (some (far_end s)),
        aead_open a (Aead.raw_in s) (Aead.raw_out (open_sink [])),
        aead_open a (Aead.raw_in (closed eof)) side,
        aead_open a side' (Aead.raw_out (open_sink [])),
        refl,
        ground (arith, run),
        refl,
        refl,
        ground (arith, read),
      )
  Lawful-Carries (stream_cipher c) laws (wide, fits, ivs) apart e end =
      let (side, run, sent) = first_write-Sent c laws z.conn_buf wide fits rand b ivs in
      let (side', read) =
        stream_write_to-Sent c laws z.conn_buf wide fits side b s sent apart
          (e ∙ rw run (stream_wire c (Stream.raw_in (closed eof)) side)) end in
      (
        stream_open c (Stream.raw_in (closed eof)) (Stream.raw_out (open_sink [])),
        stream_wrapped c (some (far_end s)),
        stream_open c (Stream.raw_in s) (Stream.raw_out (open_sink [])),
        stream_open c (Stream.raw_in (closed eof)) side,
        stream_open c side' (Stream.raw_out (open_sink [])),
        refl,
        ground (arith, run),
        refl,
        refl,
        ground (arith, read),
      )

module _ (c : Crypto) (laws : IsCrypto c) where
  pub picked-Lawful :
      (name key password : List ℕ) (x : Cipher) → pick_cipher c name key password ≡ ok x → Lawful x
  picked-Lawful name key password x e = elim (pick_cipher-Picked c laws name key password) [
    | inl (y, made, holds) ↦ subst Lawful {x = y} {y = x} (cc (e, made)) holds
    | inr (inl (n, ne, other, refused)) ↦ absurd (cc (e, refused))
    | inr (inr (missing, refused)) ↦ absurd (cc (e, refused))
  ]

  -- For every cipher that `PickCipher` makes, under sizes that suit it and with enough random bytes:
  -- Dial and Accept give connections, the first Write of `b` on the one returns the length of `b` and
  -- nil, and io.Copy from the other, whose reader delivers what was put on the wire in pieces and then
  -- ends by an EOF of its own, hands over exactly `b` and reports no error. The connections below do
  -- not fail.
  pub picked_conns :
      (copy : Source → Sink → Option (ℕ × Option Err × Source × Sink)) (copies : CopiesAll copy)
      (z : Sizes) (rand : Source) (b : List ℕ) (s : Source) (name key password : List ℕ)
      (x : Cipher)
      → pick_cipher c name key password ≡ ok x
      → Ready z rand x
      → Separate s
      → pending s ≡ on_wire z rand b x
      → ending s ≡ eof
      → Carries copy copies z rand b s x
  picked_conns copy copies z rand b s name key password x e =
      Lawful-Carries copy copies z rand b s x (picked-Lawful name key password x e)
