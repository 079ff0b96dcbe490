-- ===== src/ShadowAead/Conn.antt =====
-- `streamConn` of shadowaead/stream.go: a connection whose salts are exchanged at the first read and
-- the first write.
pub mod RoundTrip
pub mod Queue
use go_shadowsocks.Prelude.{ℕ, List, Option, none, some}
use go_shadowsocks.Errors.{Err, Result, ok, err, panic}
use go_shadowsocks.Io.{Source, read_full, Sink, write}
use go_shadowsocks.ShadowAead.Aead.{Aead}
use go_shadowsocks.ShadowAead.Cipher.{Cipher}
use go_shadowsocks.ShadowAead.Stream.{
  Reader, Writer, new_reader, new_writer, reader_read, write_to, read_from, writer_write,
}

-- `c.r` is nil until the salt was read, and `c.w` until it was written.
pub data ReadSide : Type 0 where
  raw_in : Source → ReadSide
  opened_in : Aead → Reader → ReadSide

pub data WriteSide : Type 0 where
  raw_out : Sink → WriteSide
  opened_out : Aead → Writer → WriteSide

-- Each side starts with a nil reader and a nil writer (`NewConn`).
module _ (ciph : Cipher) where
  -- `initReader`.
  abbrev with_decrypter : Source → Result Aead → Result (Aead × Reader) × ReadSide
  with_decrypter s (ok a) = (ok (a, new_reader a s), opened_in a (new_reader a s))
  with_decrypter s (err e) = (err e, raw_in s)
  with_decrypter s panic = (panic, raw_in s)

  abbrev after_salt : Result (List ℕ) × Source → Result (Aead × Reader) × ReadSide
  after_salt (ok salt, s) = with_decrypter s (ciph.decrypter salt)
  after_salt (err e, s) = (err e, raw_in s)
  after_salt (panic, s) = (panic, raw_in s)

  pub init_reader : Source → Result (Aead × Reader) × ReadSide
  init_reader s = after_salt (read_full ciph.salt_len s)

  -- `if c.r == nil { initReader }`.
  pub get_reader : ReadSide → Result (Aead × Reader) × ReadSide
  get_reader (raw_in s) = init_reader s
  get_reader (opened_in a r) = (ok (a, r), opened_in a r)

  -- `initWriter`; the salt comes from the source `rand`.
  abbrev salt_sent : Aead → ℕ × Option Err × Sink → Result (Aead × Writer) × WriteSide
  salt_sent a (n, none, w) = (ok (a, new_writer a w), opened_out a (new_writer a w))
  salt_sent a (n, some e, w) = (err e, raw_out w)

  abbrev with_encrypter : Sink → List ℕ → Result Aead → Result (Aead × Writer) × WriteSide
  with_encrypter w salt (ok a) = salt_sent a (write salt w)
  with_encrypter w salt (err e) = (err e, raw_out w)
  with_encrypter w salt panic = (panic, raw_out w)

  abbrev with_salt : Sink → Result (List ℕ) → Result (Aead × Writer) × WriteSide
  with_salt w (ok salt) = with_encrypter w salt (ciph.encrypter salt)
  with_salt w (err e) = (err e, raw_out w)
  with_salt w panic = (panic, raw_out w)

  pub init_writer : Source → Sink → Result (Aead × Writer) × WriteSide
  init_writer rand w = with_salt w (read_full ciph.salt_len rand).0

  pub get_writer : Source → WriteSide → Result (Aead × Writer) × WriteSide
  get_writer rand (raw_out w) = init_writer rand w
  get_writer rand (opened_out a w) = (ok (a, w), opened_out a w)

  module _ (mask : ℕ) where
    -- `Read(b)`.
    abbrev read_opened : ℕ → Result (Aead × Reader) × ReadSide → Result (List ℕ) × ReadSide
    read_opened room (ok (a, r), side) =
        let (res, r') = reader_read mask a room r in (res, opened_in a r')
    read_opened room (err e, side) = (err e, side)
    read_opened room (panic, side) = (panic, side)

    pub conn_read : ℕ → ReadSide → Result (List ℕ) × ReadSide
    conn_read room side = read_opened room (get_reader side)

    -- `WriteTo(w)`: the count, the error, the two states; `none` as in `write_to`.
    abbrev drained :
        Aead → Option (ℕ × Option Err × Reader × Sink) → Option (ℕ × Option Err × ReadSide × Sink)
    drained a none = none
    drained a (some (n, e, r, w)) = some (n, e, opened_in a r, w)

    abbrev drain_opened :
        Sink → Result (Aead × Reader) × ReadSide → Option (ℕ × Option Err × ReadSide × Sink)
    drain_opened w (ok (a, r), side) = drained a (write_to mask a r w)
    drain_opened w (err e, side) = some (0, some e, side, w)
    drain_opened w (panic, side) = none

    pub conn_write_to : ReadSide → Sink → Option (ℕ × Option Err × ReadSide × Sink)
    conn_write_to side w = drain_opened w (get_reader side)

    -- `ReadFrom(r)` and `Write(b)`.
    abbrev filled :
        Aead
        → Option (ℕ × Option Err × Writer × Source)
        → Option (ℕ × Option Err × WriteSide × Source)
    filled a none = none
    filled a (some (n, e, w, r)) = some (n, e, opened_out a w, r)

    abbrev fill_opened :
        Source → Result (Aead × Writer) × WriteSide → Option (ℕ × Option Err × WriteSide × Source)
    fill_opened r (ok (a, w), side) = filled a (read_from mask a r w)
    fill_opened r (err e, side) = some (0, some e, side, r)
    fill_opened r (panic, side) = none

    pub conn_read_from : Source → Source → WriteSide → Option (ℕ × Option Err × WriteSide × Source)
    conn_read_from rand r side = fill_opened r (get_writer rand side)

    abbrev write_opened :
        List ℕ → Result (Aead × Writer) × WriteSide → Option (ℕ × Option Err × WriteSide)
    write_opened b (ok (a, w), side) = elim (writer_write mask a b w) [
      | none ↦ none
      | some (n, e, w', r) ↦ some (n, e, opened_out a w')
    ]
    write_opened b (err e, side) = some (0, some e, side)
    write_opened b (panic, side) = none

    pub conn_write : Source → List ℕ → WriteSide → Option (ℕ × Option Err × WriteSide)
    conn_write rand b side = write_opened b (get_writer rand side)
