-- ===== src/ShadowAead/Stream.antt =====
-- The record layer of shadowaead/stream.go: `writer` and `reader`. Both wrap one AEAD; the package
-- variable payloadSizeMask is the parameter `mask`. Byte counts do not wrap.
pub mod Encode
pub mod Decode
pub mod RoundTrip
pub mod Mask
pub mod Faults
use Prim.Native.Nat.{bit_and}
use go_shadowsocks.Prelude.{
  ℕ, zero, suc, ◌+◌, ◌*◌, ◌/◌, ◌%◌, Bool, true, false, List, [], ◌∷◌, ◌++◌, Option, none, some,
  length, take, drop, get_or, replicate, ltb, if◌then◌else◌,
}
use go_shadowsocks.Errors.{Err, eof, auth_failed, is_eof, Result, ok, err, panic, M, pass, ◌>>=◌}
use go_shadowsocks.Io.{turns, Source, closed, last, chunk, pending, read, read_full, Sink, write}
use go_shadowsocks.ShadowAead.Aead.{Aead}
use go_shadowsocks.ShadowAead.Nonce.{increment}

-- `writer`: the embedded io.Writer and the nonce. `buf` is scratch space.
pub record Writer : Type 0 where
  pub sink : Sink
  pub nonce : List ℕ

-- `reader`: the embedded io.Reader, the nonce, and decrypted bytes not yet returned.
pub record Reader : Type 0 where
  pub source : Source
  pub nonce : List ℕ
  pub leftover : List ℕ

-- `byte(nr>>8), byte(nr)`
abbrev pub size_bytes : ℕ → List ℕ
size_bytes nr = nr / 256 % 256 ∷ nr % 256 ∷ []

-- `(int(buf[0])<<8 + int(buf[1])) & payloadSizeMask`
pub payload_size : ℕ → List ℕ → ℕ
payload_size mask buf = bit_and (get_or buf 0 0 * 256 + get_or buf 1 0) mask

-- `Write(b)` reads from a bytes.Buffer that holds `b`.
abbrev pub buffer_of : List ℕ → Source
buffer_of b = chunk b (closed eof)

-- The first loop of `WriteTo(w)`: hand over the leftover.
pub flush : ℕ → Reader → Sink → ℕ → Option (ℕ × Option Err × Reader × Sink)
flush zero r w n = none
flush (suc fuel) r w n =
    let (nw, ew, w') = write r.leftover w in
    let r' : Reader = record r { leftover = drop nw r.leftover } in
    let again = flush fuel r' w' (n + nw) in
    if ltb 0 (length r.leftover)
    then elim ew [ some e ↦ some (n + nw, some e, r', w') | none ↦ again ]
    else some (n, none, r, w)

module _ (a : Aead) where
  unfoldable pub new_writer : Sink → Writer
  new_writer w = record { sink = w; nonce = replicate a.nonce_size 0 }

  unfoldable pub new_reader : Source → Reader
  new_reader r = record { source = r; nonce = replicate a.nonce_size 0; leftover = [] }

  -- One encrypted record: the sealed size and the sealed payload.
  unfoldable pub frame : List ℕ → List ℕ → List ℕ
  frame n p = a.seal n (size_bytes (length p)) ++ a.seal (increment n) p

  -- One half of `read`: fill `k` bytes and the tag, open them, count the nonce up.
  abbrev unseal_block : Reader → Result (List ℕ) × Source → Result (List ℕ) × Reader
  unseal_block r (ok c, s) = (
    elim (a.unseal r.nonce c) [ some p ↦ ok p | none ↦ err auth_failed ],
    record r { source = s; nonce = increment r.nonce },
  )
  unseal_block r (err e, s) = (err e, record r { source = s })
  unseal_block r (panic, s) = (panic, record r { source = s })

  pub open_block : ℕ → M Reader (List ℕ)
  open_block k r = unseal_block r (read_full (k + a.overhead) r.source)

  -- The body of `if nr > 0` in `ReadFrom`, for the bytes `p` that were read.
  unfoldable pub put_payload : List ℕ → Writer → Option Err × Writer
  put_payload p w =
      let (sent, ew, sink') = write (frame w.nonce p) w.sink in
      if ltb 0 (length p)
      then (ew, record { sink = sink'; nonce = increment (increment w.nonce) })
      else (none, w)

module _ (mask : ℕ) (a : Aead) where
  -- The loop of `ReadFrom`; `none` is no result of Go's: the fuel ran out.
  unfoldable pub read_from_loop :
      ℕ → Source → Writer → ℕ → Option (ℕ × Option Err × Writer × Source)
  read_from_loop zero r w n = none
  read_from_loop (suc fuel) r w n =
      let (p, er, r') = read mask r in
      let (ew, w') = put_payload a p w in
      let again = read_from_loop fuel r' w' (n + length p) in
      elim ew [
        | some e ↦ some (n + length p, some e, w', r')
        | none ↦ elim er [
          | some e ↦ some (n + length p, (if is_eof e then none else some e), w', r')
          | none ↦ again
        ]
      ]

  unfoldable pub read_from : Source → Writer → Option (ℕ × Option Err × Writer × Source)
  read_from r w = read_from_loop (turns r) r w 0

  unfoldable pub writer_write : List ℕ → Writer → Option (ℕ × Option Err × Writer × Source)
  writer_write b w = read_from (buffer_of b) w

  -- `read`. The buffer has payloadSizeMask + Overhead bytes, so `r.buf[:2+r.Overhead()]` panics
  -- where the mask is below 2.
  pub read_record : M Reader (List ℕ)
  read_record r =
      if ltb mask 2
      then (panic, r)
      else ((do buf ← open_block a 2; open_block a (payload_size mask buf)) r)

  -- `Read(b)` with len(b) = room.
  pub copy_out : ℕ → Result (List ℕ) × Reader → Result (List ℕ) × Reader
  copy_out room (ok p, r) = (
    ok (take room p),
    record r { leftover = if ltb room (length p) then drop room p else r.leftover },
  )
  copy_out room (err e, r) = (err e, r)
  copy_out room (panic, r) = (panic, r)

  pub reader_read : ℕ → M Reader (List ℕ)
  reader_read room r =
      let fresh = copy_out room (read_record r) in
      if ltb 0 (length r.leftover)
      then (ok (take room r.leftover), record r { leftover = drop room r.leftover })
      else fresh

  -- A record that was read, or the error. `none` also stands for the panic of `read`.
  abbrev pub hand_over :
      (Reader → Sink → ℕ → Option (ℕ × Option Err × Reader × Sink))
      → Result (List ℕ) × Reader
      → Sink
      → ℕ
      → Option (ℕ × Option Err × Reader × Sink)
  hand_over again (ok p, r) w n =
      let (nw, ew, w') = write p w in
      let next = again r w' (n + nw) in
      let skip = again r w n in
      if ltb 0 (length p)
      then elim ew [ some e ↦ some (n + nw, some e, r, w') | none ↦ next ]
      else skip
  hand_over again (err e, r) w n = some (n, (if is_eof e then none else some e), r, w)
  hand_over again (panic, r) w n = none

  -- The second loop: decrypt and hand over one record after the other.
  pub drain : ℕ → Reader → Sink → ℕ → Option (ℕ × Option Err × Reader × Sink)
  drain zero r w n = none
  drain (suc fuel) r w n = hand_over (drain fuel) (read_record r) w n

  abbrev pub then_drain :
      ℕ → Option (ℕ × Option Err × Reader × Sink) → Option (ℕ × Option Err × Reader × Sink)
  then_drain fuel none = none
  then_drain fuel (some (n, some e, r, w)) = some (n, some e, r, w)
  then_drain fuel (some (n, none, r, w)) = drain fuel r w n

  -- `WriteTo(w)`. Each record takes two bytes at least from the source.
  pub write_to : Reader → Sink → Option (ℕ × Option Err × Reader × Sink)
  write_to r w = then_drain (suc (length (pending r.source))) (flush (length r.leftover + 2) r w 0)
