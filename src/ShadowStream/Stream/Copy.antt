-- ===== src/ShadowStream/Stream/Copy.antt =====
-- The copy loops of shadowstream/stream.go, over every way in which a reader may cut its bytes.
use go_shadowsocks.Prelude.{
  ℕ, zero, suc, ◌+◌, ◌≤◌, ◌≡◌, ◌∙◌, ap, List, [], ◌∷◌, ◌++◌, Option, none, some, length,
  length-append, append_assoc, append-nil, inl, inr, ltb, if◌then◌else◌, arith,
}
use go_shadowsocks.Errors.{Err, is_eof}
use go_shadowsocks.Io.{Source, closed, last, turns, pending, ending, read, Sink}
use go_shadowsocks.Io.Separate.{Separate, Separate-read}
use go_shadowsocks.Io.Reads.{copy_error, read_facts, turns_pos, all_read}
use go_shadowsocks.ShadowStream.Cipher.{Keyed, xor_from}
use go_shadowsocks.ShadowStream.Cipher.Laws.{xor_from-append, xor_from-nil, length-xor_from}
use go_shadowsocks.ShadowStream.Stream.{
  Writer, Reader, put_bytes, read_from_loop, read_from, reader_read, write_to_loop, write_to,
}

abbrev pub keyed : (List ℕ → ℕ → ℕ) → List ℕ → Keyed
keyed f seen = record { step = f; seen = seen }

-- A writer over a connection that never fails.
abbrev pub faultless : (List ℕ → ℕ → ℕ) → List ℕ → List ℕ → Writer
faultless f out seen = record { sink = record { sent = out; faults = [] }; stream = keyed f seen }

module _ (buf_len : ℕ) (some_room : 1 ≤ buf_len) (f : List ℕ → ℕ → ℕ) where
  put_bytes-faultless :
      (p out seen : List ℕ)
      → put_bytes p (faultless f out seen)
        ≡ (none, faultless f (out ++ xor_from f seen p) (seen ++ p))
  unfolding put_bytes
  put_bytes-faultless [] out seen =
      ground (arith, xor_from-nil f seen, append-nil out, append-nil seen)
  put_bytes-faultless (x ∷ p) out seen = ground arith

  -- The state after the bytes `p`.
  abbrev pub Copied :
      Source → List ℕ → List ℕ → ℕ → Option (ℕ × Option Err × Writer × Source) → Type 0
  Copied r out seen n res =
      res
      ≡ some (
        n + length (pending r),
        copy_error (ending r),
        faultless f (out ++ xor_from f seen (pending r)) (seen ++ pending r),
        closed (ending r),
      )

  loop_last :
      (fuel : ℕ) (r : Source) (out seen : List ℕ) (n : ℕ)
      → pending r ≡ (read buf_len r).0
      → (read buf_len r).1 ≡ some (ending r)
      → (read buf_len r).2 ≡ closed (ending r)
      → Copied r out seen n (read_from_loop buf_len (suc fuel) r (faultless f out seen) n)
  unfolding read_from_loop
  loop_last fuel r out seen n all e stop =
      ground (arith, put_bytes-faultless (read buf_len r).0 out seen)

  loop_more :
      (fuel : ℕ) (r : Source) (out seen : List ℕ) (n : ℕ)
      → (read buf_len r).1 ≡ none
      → read_from_loop buf_len (suc fuel) r (faultless f out seen) n
        ≡ read_from_loop buf_len fuel
            (read buf_len r).2
            (faultless f (out ++ xor_from f seen (read buf_len r).0) (seen ++ (read buf_len r).0))
            (n + length (read buf_len r).0)
  unfolding read_from_loop
  loop_more fuel r out seen n e = ground (arith, put_bytes-faultless (read buf_len r).0 out seen)

  Copied-more :
      (r r' : Source) (p out seen : List ℕ) (n : ℕ)
      (res : Option (ℕ × Option Err × Writer × Source))
      → pending r ≡ p ++ pending r'
      → ending r' ≡ ending r
      → Copied r' (out ++ xor_from f seen p) (seen ++ p) (n + length p) res
      → Copied r out seen n res
  Copied-more r r' p out seen n res cut same e = cc (
    e,
    cut,
    same,
    xor_from-append f seen p (pending r'),
    append_assoc out (xor_from f seen p) (xor_from f (seen ++ p) (pending r')),
    append_assoc seen p (pending r'),
    sum,
  )
    where
      sum : n + length p + length (pending r') ≡ n + length (pending r)
      sum = omega (arith, ap length cut, length-append p (pending r'))

  pub read_from_loop-Copied :
      (fuel : ℕ) (r : Source) (out seen : List ℕ) (n : ℕ)
      → turns r ≤ fuel
      → Copied r out seen n (read_from_loop buf_len fuel r (faultless f out seen) n)
  read_from_loop-Copied zero r out seen n h = absurd (omega (arith, turns_pos r))
  read_from_loop-Copied (suc fuel) r out seen n h =
      let (cut, same, fits, next) = read_facts buf_len r some_room in
      elim next [
        | inr (e, stop) ↦ loop_last fuel r out seen n (all_read _ r cut stop) e stop
        | inl (e, fewer) ↦ rw (loop_more fuel r out seen n e) (
            Copied-more r (read buf_len r).2 (read buf_len r).0 out seen n _ cut same
              (read_from_loop-Copied fuel (read buf_len r).2 _ _ _ (omega arith)))
      ]

  -- `ReadFrom` encrypts every reader to its end, as one stream, however the reader cuts its bytes.
  pub read_from-Copied :
      (r : Source) (out seen : List ℕ)
      → Copied r out seen 0 (read_from buf_len r (faultless f out seen))
  unfolding read_from
  read_from-Copied r out seen = read_from_loop-Copied (turns r) r out seen 0 (omega arith)

-- A reader and a writer at given states.
abbrev pub reading : (List ℕ → ℕ → ℕ) → Source → List ℕ → Reader
reading f s seen = record { source = s; stream = keyed f seen }

abbrev pub open_sink : List ℕ → Sink
open_sink out = record { sent = out; faults = [] }

module _ (buf_len : ℕ) (some_room : 1 ≤ buf_len) (f : List ℕ → ℕ → ℕ) where
  abbrev pub Drained :
      Source → List ℕ → List ℕ → ℕ → Option (ℕ × Option Err × Reader × Sink) → Type 0
  Drained s seen out n res =
      res
      ≡ some (
        n + length (pending s),
        copy_error (ending s),
        reading f (closed (ending s)) (seen ++ pending s),
        open_sink (out ++ xor_from f seen (pending s)),
      )

  drain_last :
      (fuel : ℕ) (s : Source) (seen out : List ℕ) (n : ℕ)
      → pending s ≡ []
      → (read buf_len s).1 ≡ some (ending s)
      → (read buf_len s).2 ≡ closed (ending s)
      → Drained s seen out n (write_to_loop buf_len (suc fuel) (reading f s seen) (open_sink out) n)
  unfolding write_to_loop reader_read
  drain_last fuel s seen out n all e stop =
      ground (arith, xor_from-nil f seen, append-nil seen, append-nil out)

  reader_read-more :
      (s : Source) (seen : List ℕ)
      → (read buf_len s).1 ≡ none
      → reader_read buf_len (reading f s seen) ≡ (
        xor_from f seen (read buf_len s).0,
        none,
        reading f (read buf_len s).2 (seen ++ (read buf_len s).0),
      )
  unfolding reader_read
  reader_read-more s seen e = ground (arith)

  -- A turn that writes what it read, nothing when it read nothing.
  skip_nothing :
      (c p out : List ℕ) (n : ℕ) (k : ℕ → List ℕ → Option (ℕ × Option Err × Reader × Sink))
      → length c ≡ length p
      → (if ltb 0 (length c) then k (n + length c) (out ++ c) else k n out)
        ≡ k (n + length p) (out ++ c)
  skip_nothing [] [] out n k h = ground (arith, append-nil out)
  skip_nothing [] (y ∷ p) out n k h = absurd (omega arith)
  skip_nothing (x ∷ c) p out n k h = ground (arith, h)

  drain_more :
      (fuel : ℕ) (s : Source) (seen out : List ℕ) (n : ℕ)
      → (read buf_len s).1 ≡ none
      → write_to_loop buf_len (suc fuel) (reading f s seen) (open_sink out) n
        ≡ write_to_loop buf_len fuel
            (reading f (read buf_len s).2 (seen ++ (read buf_len s).0))
            (open_sink (out ++ xor_from f seen (read buf_len s).0))
            (n + length (read buf_len s).0)
  unfolding write_to_loop
  drain_more fuel s seen out n e =
      ap turn (reader_read-more s seen e)
      ∙ skip_nothing (xor_from f seen (read buf_len s).0) (read buf_len s).0 out n
          (λ k o.
            write_to_loop buf_len fuel (reading f (read buf_len s).2 (seen ++ (read buf_len s).0))
              (open_sink o) k)
          (length-xor_from f seen (read buf_len s).0)
    where
      stop : Err → Option Err
      stop e' = if is_eof e' then none else some e'

      turn : List ℕ × Option Err × Reader → Option (ℕ × Option Err × Reader × Sink)
      turn res =
          if ltb 0 (length res.0)
          then elim res.1 [
            | some e' ↦ some (n + length res.0, stop e', res.2, open_sink (out ++ res.0))
            | none ↦ write_to_loop buf_len fuel res.2 (open_sink (out ++ res.0)) (n + length res.0)
          ]
          else elim res.1 [
            | some e' ↦ some (n, stop e', res.2, open_sink out)
            | none ↦ write_to_loop buf_len fuel res.2 (open_sink out) n
          ]

  Drained-more :
      (s s' : Source) (p seen out : List ℕ) (n : ℕ) (res : Option (ℕ × Option Err × Reader × Sink))
      → pending s ≡ p ++ pending s'
      → ending s' ≡ ending s
      → Drained s' (seen ++ p) (out ++ xor_from f seen p) (n + length p) res
      → Drained s seen out n res
  Drained-more s s' p seen out n res cut same e = cc (
    e,
    cut,
    same,
    xor_from-append f seen p (pending s'),
    append_assoc out (xor_from f seen p) (xor_from f (seen ++ p) (pending s')),
    append_assoc seen p (pending s'),
    sum,
  )
    where
      sum : n + length p + length (pending s') ≡ n + length (pending s)
      sum = omega (arith, ap length cut, length-append p (pending s'))

  write_to_loop-Drained :
      (fuel : ℕ) (s : Source) (seen out : List ℕ) (n : ℕ)
      → Separate s
      → turns s ≤ fuel
      → Drained s seen out n (write_to_loop buf_len fuel (reading f s seen) (open_sink out) n)
  write_to_loop-Drained zero s seen out n d h = absurd (omega (arith, turns_pos s))
  write_to_loop-Drained (suc fuel) s seen out n d h =
      let (cut, same, fits, next) = read_facts buf_len s some_room in
      let (stays, alone) = Separate-read buf_len s d in
      elim next [
        | inr (e, stop) ↦
            let nothing : pending s ≡ [] =
              ground (arith, all_read (read buf_len s).0 s cut stop, alone) in
            drain_last fuel s seen out n nothing e stop
        | inl (e, fewer) ↦ rw (drain_more fuel s seen out n e) (
            Drained-more s (read buf_len s).2 (read buf_len s).0 seen out n _ cut same
              (write_to_loop-Drained fuel (read buf_len s).2 _ _ _ stays (omega arith)))
      ]

  -- `WriteTo` decrypts to its end every reader whose errors come alone.
  pub write_to-Drained :
      (s : Source) (seen out : List ℕ)
      → Separate s
      → Drained s seen out 0 (write_to buf_len (reading f s seen) (open_sink out))
  unfolding write_to
  write_to-Drained s seen out d = write_to_loop-Drained (turns s) s seen out 0 d (omega arith)

-- A reader that returns its last bytes together with an error loses them in `Read`: it returns no
-- byte, and none is left.
pub reader_read_loses :
    (room : ℕ) (bs seen : List ℕ) (e : Err) (f : List ℕ → ℕ → ℕ)
    → length bs ≤ room
    → reader_read room (reading f (last bs e) seen) ≡ ([], some e, reading f (closed e) seen)
unfolding reader_read
reader_read_loses room bs seen e f h = ground arith
