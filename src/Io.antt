-- ===== src/Io.antt =====
-- Readers and writers of Go's standard library, as far as the program uses them: io.Reader.Read,
-- io.ReadFull, io.Writer.Write.
pub mod ReadFull
pub mod Reads
pub mod Separate
pub mod Fill
use go_shadowsocks.Prelude.{
  ℕ, zero, suc, ◌+◌, min, Bool, true, false, List, [], ◌∷◌, ◌++◌, Option, none, some, length, take,
  drop, ◌-◌, leb, if◌then◌else◌,
}
use go_shadowsocks.Errors.{Err, eof, unexpected_eof, Result, ok, err, is_eof}

-- What a reader will deliver. `chunk bs r`: the next reads deliver `bs`, then `r` follows.
-- `last bs e`: the read that delivers the end of `bs` returns `e` with it. `closed e`: every read
-- returns no byte and `e`. An error of a reader stays.
pub data Source : Type 0 where
  closed : Err → Source
  last : List ℕ → Err → Source
  chunk : List ℕ → Source → Source

-- The bytes that are still to come, and the error behind them.
abbrev pub pending : Source → List ℕ
pending (closed e) = []
pending (last bs e) = bs
pending (chunk bs r) = bs ++ pending r

abbrev pub ending : Source → Err
ending (closed e) = e
ending (last bs e) = e
ending (chunk bs r) = ending r

-- `r.Read(p)` with len(p) = room.
abbrev pub read : ℕ → Source → List ℕ × Option Err × Source
read room (closed e) = ([], some e, closed e)
read room (last bs e) =
    if leb (length bs) room
    then (bs, some e, closed e)
    else (take room bs, none, last (drop room bs) e)
read room (chunk bs r) =
    if leb (length bs) room then (bs, none, r) else (take room bs, none, chunk (drop room bs) r)

-- The number of reads that can be made of a reader before its last one.
abbrev pub turns : Source → ℕ
turns (closed e) = 1
turns (last bs e) = length bs + 2
turns (chunk bs r) = length bs + suc (turns r)

-- The loop of io.ReadAtLeast: the bytes read, the error of the last read, the reader.
unfoldable pub gather : ℕ → Source → List ℕ × Option Err × Source
gather zero s = ([], none, s)
gather (suc n) (closed e) = ([], some e, closed e)
gather (suc n) (last bs e) = read (suc n) (last bs e)
gather (suc n) (chunk bs r) =
    let (more, e, r') = gather (suc n - length bs) r in
    if leb (length bs) (suc n)
    then (bs ++ more, e, r')
    else (take (suc n) bs, none, chunk (drop (suc n) bs) r)

-- The error of io.ReadFull when `got` bytes came before `e`.
abbrev pub full_error : ℕ → Err → Err
full_error zero e = e
full_error (suc got) e = if is_eof e then unexpected_eof else e

-- `io.ReadFull(r, p)` with len(p) = n. An error that comes with the last byte is dropped.
unfoldable pub full : ℕ → List ℕ × Option Err × Source → Result (List ℕ) × Source
full n (bs, none, r) = (ok bs, r)
full n (bs, some e, r) =
    if leb n (length bs) then (ok bs, r) else (err (full_error (length bs) e), r)

unfoldable pub read_full : ℕ → Source → Result (List ℕ) × Source
read_full n s = full n (gather n s)

-- A writer, by the outcome of its next writes: `none` takes all bytes, `some (k, e)` takes `k`
-- bytes at most and fails with `e`; behind the list every write succeeds.
pub record Sink : Type 0 where
  pub sent : List ℕ
  pub faults : List (Option (ℕ × Err))

-- `w.Write(b)`: the number of bytes written, the error, the writer.
abbrev pub write_as : List (Option (ℕ × Err)) → List ℕ → List ℕ → ℕ × Option Err × Sink
write_as [] sent b = (length b, none, record { sent = sent ++ b; faults = [] })
write_as (none ∷ fs) sent b = (length b, none, record { sent = sent ++ b; faults = fs })
write_as (some (k, e) ∷ fs) sent b =
    (min k (length b), some e, record { sent = sent ++ take k b; faults = fs })

abbrev pub write : List ℕ → Sink → ℕ × Option Err × Sink
write b w = write_as w.faults w.sent b

-- A net.Conn: what the peer sends, and what is written to it.
pub record Conn : Type 0 where
  pub input : Source
  pub output : Sink
