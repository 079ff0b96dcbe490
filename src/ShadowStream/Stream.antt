-- ===== src/ShadowStream/Stream.antt =====
-- `writer` and `reader` of shadowstream/stream.go. len(buf) is the package variable connBufSize, here
-- `buf_len`. Byte counts do not wrap.
pub mod Copy
use go_shadowsocks.Prelude.{
  ℕ, zero, suc, ◌+◌, Bool, true, false, List, [], ◌∷◌, ◌++◌, Option, none, some, length, take, ltb,
  if◌then◌else◌,
}
use go_shadowsocks.Errors.{Err, eof, is_eof, Result, ok, err}
use go_shadowsocks.Io.{Source, closed, last, chunk, turns, read, Sink, write}
use go_shadowsocks.ShadowStream.Cipher.{Keyed, xor_from, xor_key_stream}

-- `writer` and `reader`: what they wrap, and the state of the cipher.
pub record Writer : Type 0 where
  pub sink : Sink
  pub stream : Keyed

pub record Reader : Type 0 where
  pub source : Source
  pub stream : Keyed

-- The body of `if nr > 0` in `ReadFrom`, for the bytes `p` that were read.
pub put_bytes : List ℕ → Writer → Option Err × Writer
put_bytes p w =
    let (c, k) = xor_key_stream w.stream p in
    let (sent, ew, sink') = write c w.sink in
    if ltb 0 (length p) then (ew, record { sink = sink'; stream = k }) else (none, w)

-- The loop of `ReadFrom`; `none` is no result of Go's: the fuel ran out.
pub read_from_loop : ℕ → ℕ → Source → Writer → ℕ → Option (ℕ × Option Err × Writer × Source)
read_from_loop buf_len zero r w n = none
read_from_loop buf_len (suc fuel) r w n =
    let (p, er, r') = read buf_len r in
    let (ew, w') = put_bytes p w in
    let again = read_from_loop buf_len fuel r' w' (n + length p) in
    elim ew [
      | some e ↦ some (n + length p, some e, w', r')
      | none ↦ elim er [
        | some e ↦ some (n + length p, (if is_eof e then none else some e), w', r')
        | none ↦ again
      ]
    ]

pub read_from : ℕ → Source → Writer → Option (ℕ × Option Err × Writer × Source)
read_from buf_len r w = read_from_loop buf_len (turns r) r w 0

-- `Write(b)` reads from a bytes.Buffer that holds `b`.
unfoldable pub writer_write : ℕ → List ℕ → Writer → Option (ℕ × Option Err × Writer × Source)
writer_write buf_len b w = read_from buf_len (chunk b (closed eof)) w

-- `Read(b)` with len(b) = room. Bytes that come with an error are not returned.
abbrev pub decrypted : Reader → List ℕ × Option Err × Source → List ℕ × Option Err × Reader
decrypted r (p, some e, s) = ([], some e, record r { source = s })
decrypted r (p, none, s) =
    let (c, k) = xor_key_stream r.stream p in (c, none, record { source = s; stream = k })

pub reader_read : ℕ → Reader → List ℕ × Option Err × Reader
reader_read room r = decrypted r (read room r.source)

-- The loop of `WriteTo(w)`.
pub write_to_loop : ℕ → ℕ → Reader → Sink → ℕ → Option (ℕ × Option Err × Reader × Sink)
write_to_loop buf_len zero r w n = none
write_to_loop buf_len (suc fuel) r w n =
    let (p, er, r') = reader_read buf_len r in
    let (nw, ew, w') = write p w in
    let written = write_to_loop buf_len fuel r' w' (n + nw) in
    let skipped = write_to_loop buf_len fuel r' w n in
    if ltb 0 (length p)
    then elim ew [
      | some e ↦ some (n + nw, some e, r', w')
      | none ↦ elim er [
        | some e ↦ some (n + nw, (if is_eof e then none else some e), r', w')
        | none ↦ written
      ]
    ]
    else elim er [ some e ↦ some (n, (if is_eof e then none else some e), r', w) | none ↦ skipped ]

pub write_to : ℕ → Reader → Sink → Option (ℕ × Option Err × Reader × Sink)
write_to buf_len r w = write_to_loop buf_len (turns r.source) r w 0
