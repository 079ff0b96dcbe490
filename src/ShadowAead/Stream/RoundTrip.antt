-- ===== src/ShadowAead/Stream/RoundTrip.antt =====
-- Both directions of shadowaead/stream.go together: what one side writes, the other side reads.
use go_shadowsocks.Prelude.{
  length-take, ℕ, suc, ◌+◌, ◌≤◌, ◌≡◌, refl, ◌∙◌, ap, sym, List, [], ◌∷◌, ◌++◌, Option, none, some,
  length, take, drop, replicate, ◌≢◌, concat, All, length-append, take-append-drop, drop-all,
  append_assoc, append-nil, arith,
}
use go_shadowsocks.Errors.{Err, eof, ok, err}
use go_shadowsocks.Io.Reads.{copy_error}
use go_shadowsocks.Io.{Source, pending, ending}
use go_shadowsocks.ShadowAead.Aead.{Aead, IsAead}
use go_shadowsocks.ShadowAead.Nonce.{increment}
use go_shadowsocks.ShadowAead.Stream.{
  Reader, Writer, frame, flush, write_to, read_from, new_writer, new_reader, reader_read, copy_out,
  size_bytes,
}
use go_shadowsocks.ShadowAead.Stream.Encode.{frames, past, IsChunk, read_from-Copies}
use go_shadowsocks.ShadowAead.Stream.Decode.{
  IsMask, at, drain-frames, read_record-frame, read_record_end,
}

module _ (a : Aead) (laws : IsAead a) where
  length-frame : (n c : List ℕ) → 2 ≤ length (frame a n c)
  unfolding frame
  length-frame n c = omega (
    arith,
    length-append (a.seal n (size_bytes (length c))) (a.seal (increment n) c),
    laws.seal_length n (size_bytes (length c)),
  )

  length-frames : (n : List ℕ) (cs : List (List ℕ)) → length cs ≤ length (frames a n cs)
  length-frames n [] = omega arith
  length-frames n (c ∷ cs) = omega (
    arith,
    length-append (frame a n c) (frames a (increment (increment n)) cs),
    length-frame n c,
    length-frames (increment (increment n)) cs,
  )

  module _ (mask : ℕ) (m : IsMask mask) where
    -- The plaintext that a reader still has to deliver: its leftover and the records to come.
    pub record Holds (r : Reader) (p : List ℕ) : Type 0 where
      pub chunks : List (List ℕ)
      pub are_chunks : All (IsChunk mask) chunks
      pub coming : pending r.source ≡ frames a r.nonce chunks
      pub total : p ≡ r.leftover ++ concat chunks

    flush_all :
        (fuel : ℕ) (s : Source) (n l out : List ℕ) (k : ℕ)
        → flush (suc (suc fuel)) (at s n l) (record { sent = out; faults = [] }) k
          ≡ some (k + length l, none, at s n [], record { sent = out ++ l; faults = [] })
    unfolding flush
    flush_all fuel s n [] out k = ground (arith, append-nil out)
    flush_all fuel s n (x ∷ l) out k = ground (arith, drop-all l (length l))

    -- `WriteTo` hands over all that the reader holds, in order, and ends as its source ends: nil at
    -- EOF, any other error as it is.
    pub write_to-Holds :
        (r : Reader) (p out : List ℕ)
        → Holds r p
        → (s : Source) × (n : List ℕ) × (write_to mask a r (record { sent = out; faults = [] })
            ≡ some (
              length p,
              copy_error (ending r.source),
              at s n [],
              record { sent = out ++ p; faults = [] },
            ))
    unfolding write_to
    write_to-Holds r p out h =
        let k = length r.leftover in
        let (s, run) =
          drain-frames a laws mask m h.chunks (suc (length (pending r.source))) r.source r.nonce []
            (out ++ r.leftover) k h.are_chunks h.coming
            (rw h.coming (omega (arith, length-frames r.nonce h.chunks))) in
        (
          s,
          past r.nonce h.chunks,
          ground (
            arith,
            flushed,
            run,
            h.total,
            length-append r.leftover (concat h.chunks),
            append_assoc out r.leftover (concat h.chunks),
          ),
        )
      where
        flushed :
            flush (length r.leftover + 2) r (record { sent = out; faults = [] }) 0
            ≡ some (
              length r.leftover,
              none,
              at r.source r.nonce [],
              record { sent = out ++ r.leftover; faults = [] },
            )
        flushed = ground (arith, flush_all (length r.leftover) r.source r.nonce r.leftover out 0)

    -- One `Read` with room for `room` bytes: it returns `b` and leaves `rest`.
    abbrev pub Reads : ℕ → Reader → List ℕ → List ℕ → Reader → List ℕ → Type 0
    Reads room r p b r' rest =
        (reader_read mask a room r ≡ (ok b, r'))
        × (p ≡ b ++ rest)
        × (1 ≤ length b)
        × (length b ≤ room)
        × Holds r' rest
        × (ending r'.source ≡ ending r.source)

    Reads-leftover :
        (room : ℕ) (s : Source) (n l : List ℕ) (cs : List (List ℕ))
        → 1 ≤ room
        → 1 ≤ length l
        → All (IsChunk mask) cs
        → pending s ≡ frames a n cs
        → Reads room
            (at s n l)
            (l ++ concat cs)
            (take room l)
            (at s n (drop room l))
            (drop room l ++ concat cs)
    unfolding reader_read
    Reads-leftover room s n l cs hc hl h e = (
      ground arith,
      ap (λ t. t ++ concat cs) (sym (take-append-drop room l))
          ∙ append_assoc (take room l) (drop room l) (concat cs),
      omega (arith, length-take room l),
      omega (arith, length-take room l),
      record { chunks = cs; are_chunks = h; coming = e; total = refl },
      refl,
    )

    Reads-fresh :
        (room : ℕ) (s : Source) (n c : List ℕ) (cs : List (List ℕ))
        → 1 ≤ room
        → All (IsChunk mask) (c ∷ cs)
        → pending s ≡ frames a n (c ∷ cs)
        → (r' : Reader) × Reads room
            (at s n [])
            (c ++ concat cs)
            (take room c)
            r'
            (drop room c ++ concat cs)
    unfolding reader_read copy_out
    Reads-fresh room s n c cs hc h e =
        let (s', got, left, end) =
          read_record-frame a laws mask m c (frames a (increment (increment n)) cs) s n [] h.0 e in
        (
          at s' (increment (increment n)) (drop room c),
          (
            ground (arith, got, drop-all c room),
            ap (λ t. t ++ concat cs) (sym (take-append-drop room c))
                ∙ append_assoc (take room c) (drop room c) (concat cs),
            omega (arith, length-take room c, h.0),
            omega (arith, length-take room c),
            record { chunks = cs; are_chunks = h.1; coming = left; total = refl },
            end,
          ),
        )

    Reads-any :
        (room : ℕ) (s : Source) (n l p : List ℕ) (cs : List (List ℕ))
        → 1 ≤ room
        → p ≢ []
        → All (IsChunk mask) cs
        → pending s ≡ frames a n cs
        → p ≡ l ++ concat cs
        → (b : List ℕ) × (r' : Reader) × (rest : List ℕ) × Reads room (at s n l) p b r' rest
    Reads-any room s n [] p [] hc ne h e t = absurd (ne t)
    Reads-any room s n [] p (c ∷ cs) hc ne h e t =
        let (r', got) = Reads-fresh room s n c cs hc h e in
        (take room c, r', drop room c ++ concat cs, rw t got)
    Reads-any room s n (x ∷ l) p cs hc ne h e t = (
      take room (x ∷ l),
      at s n (drop room (x ∷ l)),
      drop room (x ∷ l) ++ concat cs,
      rw t (Reads-leftover room s n (x ∷ l) cs hc (omega arith) h e),
    )

    -- `Read(b)` with room for `room` bytes returns between 1 and `room` of the bytes that the reader
    -- holds, the first ones, and keeps the rest: it refines a queue of bytes.
    pub reader_read-Holds :
        (room : ℕ) (r : Reader) (p : List ℕ)
        → 1 ≤ room
        → p ≢ []
        → Holds r p
        → (b : List ℕ) × (r' : Reader) × (rest : List ℕ) × Reads room r p b r' rest
    reader_read-Holds room r p hc ne h =
        Reads-any room r.source r.nonce r.leftover p h.chunks hc ne h.are_chunks h.coming h.total

    end_any :
        (room : ℕ) (s : Source) (n l : List ℕ) (cs : List (List ℕ))
        → All (IsChunk mask) cs
        → pending s ≡ frames a n cs
        → ◌≡◌ {A = List ℕ} [] (l ++ concat cs)
        → (r' : Reader) × (reader_read mask a room (at s n l) ≡ (err (ending s), r')) × Holds r' []
    unfolding reader_read copy_out
    end_any room s n [] [] h e t =
        let (s', got, left, end) = read_record_end a laws mask m s n [] e in
        (
          at s' n [],
          ground (arith, got),
          record { chunks = []; are_chunks = tt; coming = left; total = refl },
        )
    end_any room s n [] ([] ∷ cs) h e t = absurd (omega (arith, h.0))
    end_any room s n [] ((x ∷ c) ∷ cs) h e t = cc
    end_any room s n (x ∷ l) cs h e t = cc

    -- Where it holds nothing more, `Read` returns the error behind the source, `eof` at a clean end.
    pub reader_read_end :
        (room : ℕ) (r : Reader)
        → Holds r []
        → (r' : Reader) × (reader_read mask a room r ≡ (err (ending r.source), r')) × Holds r' []
    reader_read_end room r h =
        end_any room r.source r.nonce r.leftover h.chunks h.are_chunks h.coming h.total

    -- What `ReadFrom` writes to a connection, `WriteTo` on the other side hands over again: for any
    -- reader `r` that the sender copies from, however it cuts its bytes, and any reader `s` that
    -- delivers the sender's bytes to the receiver, and so ends.
    pub read_from-write_to :
        (r r' s : Source) (k : ℕ) (er : Option Err) (w : Writer)
        → read_from mask a r (new_writer a (record { sent = []; faults = [] }))
          ≡ some (k, er, w, r')
        → pending s ≡ w.sink.sent
        → ending s ≡ eof
        → (end : Reader) × (write_to mask a (new_reader a s) (record { sent = []; faults = [] })
            ≡ some (length (pending r), none, end, record { sent = pending r; faults = [] }))
    unfolding new_writer new_reader
    read_from-write_to r r' s k er w copied e end =
        let (cs, copies) = read_from-Copies a mask (omega (arith, m.wide)) r [] zeros in
        let came : pending s ≡ frames a zeros cs = ground (arith, copied, copies.0, e) in
        let (s', n', got) =
          write_to-Holds (at s zeros []) (pending r) []
            (record { chunks = cs; are_chunks = copies.2; coming = came; total = sym copies.1 }) in
        (at s' n' [], ground (arith, got, end))
      where
        zeros : List ℕ
        zeros = replicate a.nonce_size 0
