-- ===== src/ShadowStream/Conn.antt =====
-- `conn` of shadowstream/stream.go: a connection whose IVs are exchanged at the first read and the
-- first write. rand.Reader is a source; len(buf) is the package variable connBufSize.
pub mod RoundTrip
use go_shadowsocks.Prelude.{ℕ, ◌+◌, List, [], ◌++◌, Option, none, some, length, ltb, if◌then◌else◌}
use go_shadowsocks.Errors.{Err, eof, is_eof, Result, ok, err, panic}
use go_shadowsocks.Io.{Source, chunk, closed, read, turns, read_full, Sink, write}
use go_shadowsocks.ShadowStream.Cipher.{Cipher, Keyed, xor_key_stream}
use go_shadowsocks.ShadowStream.Stream.{
  Reader, Writer, reader_read, write_to, read_from_loop, writer_write,
}

-- `c.r` is nil until the IV was read, and `c.w` until `initWriter` or `ReadFrom` made it.
pub data ReadSide : Type 0 where
  raw_in : Source → ReadSide
  opened_in : Reader → ReadSide

pub data WriteSide : Type 0 where
  raw_out : Sink → WriteSide
  opened_out : Writer → WriteSide

module _ (ciph : Cipher) (buf_len : ℕ) where
  -- `initReader`; the slice `buf[:c.IVSize()]` panics where the buffer is too small.
  abbrev with_decrypter : Source → Result Keyed → Result Reader × ReadSide
  with_decrypter s (ok k) =
      (ok (record { source = s; stream = k }), opened_in (record { source = s; stream = k }))
  with_decrypter s (err e) = (err e, raw_in s)
  with_decrypter s panic = (panic, raw_in s)

  abbrev after_iv : Result (List ℕ) × Source → Result Reader × ReadSide
  after_iv (ok iv, s) = with_decrypter s (ciph.decrypter iv)
  after_iv (err e, s) = (err e, raw_in s)
  after_iv (panic, s) = (panic, raw_in s)

  pub init_reader : Source → Result Reader × ReadSide
  init_reader s =
      if ltb buf_len ciph.iv_size then (panic, raw_in s) else after_iv (read_full ciph.iv_size s)

  -- `if c.r == nil { initReader }`.
  pub get_reader : ReadSide → Result Reader × ReadSide
  get_reader (raw_in s) = init_reader s
  get_reader (opened_in r) = (ok r, opened_in r)

  -- `Read(b)` with len(b) = room.
  abbrev read_opened : ℕ → Result Reader × ReadSide → Result (List ℕ × Option Err) × ReadSide
  read_opened room (ok r, side) = let (bs, e, r') = reader_read room r in (ok (bs, e), opened_in r')
  read_opened room (err e, side) = (ok ([], some e), side)
  read_opened room (panic, side) = (panic, side)

  pub conn_read : ℕ → ReadSide → Result (List ℕ × Option Err) × ReadSide
  conn_read room side = read_opened room (get_reader side)

  -- `WriteTo(w)`: the count, the error, the two states; `none` is a panic.
  abbrev drained :
      Option (ℕ × Option Err × Reader × Sink) → Option (ℕ × Option Err × ReadSide × Sink)
  drained none = none
  drained (some (n, e, r, w)) = some (n, e, opened_in r, w)

  abbrev drain_opened : Sink → Result Reader × ReadSide → Option (ℕ × Option Err × ReadSide × Sink)
  drain_opened w (ok r, side) = drained (write_to buf_len r w)
  drain_opened w (err e, side) = some (0, some e, side, w)
  drain_opened w (panic, side) = none

  pub conn_write_to : ReadSide → Sink → Option (ℕ × Option Err × ReadSide × Sink)
  conn_write_to side w = drain_opened w (get_reader side)

  -- `initWriter`.
  abbrev with_encrypter : ℕ × Option Err × Sink → Result Keyed → Result Writer × WriteSide
  with_encrypter (n, some e, w) k = (err e, raw_out w)
  with_encrypter (n, none, w) (ok k) =
      (ok (record { sink = w; stream = k }), opened_out (record { sink = w; stream = k }))
  with_encrypter (n, none, w) (err e) = (err e, raw_out w)
  with_encrypter (n, none, w) panic = (panic, raw_out w)

  abbrev with_iv : Sink → Result (List ℕ) → Result Writer × WriteSide
  with_iv w (ok iv) = with_encrypter (write iv w) (ciph.encrypter iv)
  with_iv w (err e) = (err e, raw_out w)
  with_iv w panic = (panic, raw_out w)

  pub init_writer : Source → Sink → Result Writer × WriteSide
  init_writer rand w =
      if ltb buf_len ciph.iv_size
      then (panic, raw_out w)
      else with_iv w (read_full ciph.iv_size rand).0

  pub get_writer : Source → WriteSide → Result Writer × WriteSide
  get_writer rand (raw_out w) = init_writer rand w
  get_writer rand (opened_out w) = (ok w, opened_out w)

  -- `Write(b)`.
  abbrev write_opened : List ℕ → Result Writer × WriteSide → Option (ℕ × Option Err × WriteSide)
  write_opened b (ok w, side) = elim (writer_write buf_len b w) [
    | none ↦ none
    | some (n, e, w', r) ↦ some (n, e, opened_out w')
  ]
  write_opened b (err e, side) = some (0, some e, side)
  write_opened b (panic, side) = none

  pub conn_write : Source → List ℕ → WriteSide → Option (ℕ × Option Err × WriteSide)
  conn_write rand b side = write_opened b (get_writer rand side)

  -- `ReadFrom(r)`: the loop on a writer that is there.
  abbrev filled :
      Option (ℕ × Option Err × Writer × Source) → Option (ℕ × Option Err × WriteSide × Source)
  filled none = none
  filled (some (n, e, w, r)) = some (n, e, opened_out w, r)

  abbrev copy_loop : Source → Writer → ℕ → Option (ℕ × Option Err × WriteSide × Source)
  copy_loop r w n = filled (read_from_loop buf_len (turns r) r w n)

  -- The first write of `ReadFrom`: the IV and the first bytes together.
  abbrev first_sent :
      ℕ → Source → Keyed → ℕ × Option Err × Sink → Option (ℕ × Option Err × WriteSide × Source)
  first_sent n r k (m, some e, w) =
      some (0, some e, opened_out (record { sink = w; stream = k }), r)
  first_sent n r k (m, none, w) = copy_loop r (record { sink = w; stream = k }) n

  -- The first read of `ReadFrom`. `c.w` is set before it, whatever it returns.
  abbrev first_read :
      List ℕ → Writer → List ℕ × Option Err × Source → Option (ℕ × Option Err × WriteSide × Source)
  first_read iv w (p, some e, r) = some (0, some e, opened_out w, r)
  first_read iv w (p, none, r) =
      let (c, k) = xor_key_stream w.stream p in
      if ltb 0 (length p)
      then first_sent (length p) r k (write (iv ++ c) w.sink)
      else copy_loop r w 0

  abbrev first_with :
      List ℕ → Sink → Source → Result Keyed → Option (ℕ × Option Err × WriteSide × Source)
  first_with iv w r (ok k) = first_read iv (record { sink = w; stream = k }) (read buf_len r)
  first_with iv w r (err e) = none
  first_with iv w r panic = none

  abbrev first_iv : Sink → Source → Result (List ℕ) → Option (ℕ × Option Err × WriteSide × Source)
  first_iv w r (ok iv) = first_with iv w r (ciph.encrypter iv)
  first_iv w r (err e) = some (0, some e, raw_out w, r)
  first_iv w r panic = none

  pub conn_read_from : Source → Source → WriteSide → Option (ℕ × Option Err × WriteSide × Source)
  conn_read_from rand r (raw_out w) =
      if ltb buf_len ciph.iv_size then none else first_iv w r (read_full ciph.iv_size rand).0
  conn_read_from rand r (opened_out w) = copy_loop r w 0
