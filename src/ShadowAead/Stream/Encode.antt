-- ===== src/ShadowAead/Stream/Encode.antt =====
-- What `ReadFrom` of shadowaead/stream.go writes, for every reader that it copies from.
use go_shadowsocks.Prelude.{
  ℕ, zero, suc, ◌+◌, ◌≤◌, ◌≡◌, refl, ◌∙◌, ap, sym, List, [], ◌∷◌, ◌++◌, Option, none, some, length,
  concat, concat-append, All, All-append, length-append, append_assoc, append-nil, inl, inr, arith,
}
use go_shadowsocks.Errors.{Err}
use go_shadowsocks.Io.Reads.{read_facts, turns_pos, all_read, copy_error}
use go_shadowsocks.Io.{turns, Source, closed, pending, ending, read}
use go_shadowsocks.ShadowAead.Aead.{Aead}
use go_shadowsocks.ShadowAead.Nonce.{increment}
use go_shadowsocks.ShadowAead.Stream.{Writer, frame, put_payload, read_from_loop, read_from}

-- The chunk list of one read: no record is written for an empty read.
abbrev pub one : List ℕ → List (List ℕ)
one [] = []
one (x ∷ xs) = (x ∷ xs) ∷ []

-- A chunk that a record can carry.
abbrev pub IsChunk : ℕ → List ℕ → Type 0
IsChunk mask c = (1 ≤ length c) × (length c ≤ mask)

-- The nonce behind the records of some chunks: two operations for each.
abbrev pub past : List ℕ → List (List ℕ) → List ℕ
past n [] = n
past n (c ∷ cs) = past (increment (increment n)) cs

pub past-append : (n : List ℕ) (cs ds : List (List ℕ)) → past n (cs ++ ds) ≡ past (past n cs) ds
past-append n [] ds = refl
past-append n (c ∷ cs) ds = past-append (increment (increment n)) cs ds

one-IsChunk : (mask : ℕ) (p : List ℕ) → length p ≤ mask → All (IsChunk mask) (one p)
one-IsChunk mask [] h = tt
one-IsChunk mask (x ∷ xs) h = ((omega arith, h), tt)

concat-one : (p : List ℕ) → concat (one p) ≡ p
concat-one [] = refl
concat-one (x ∷ xs) = append-nil (x ∷ xs)

-- A writer whose underlying writer never fails.
abbrev pub faultless : List ℕ → List ℕ → Writer
faultless out n = record { sink = record { sent = out; faults = [] }; nonce = n }

module _ (a : Aead) where
  -- The records of some chunks, one behind the other.
  abbrev pub frames : List ℕ → List (List ℕ) → List ℕ
  frames n [] = []
  frames n (c ∷ cs) = frame a n c ++ frames (increment (increment n)) cs

  pub frames-append :
      (n : List ℕ) (cs ds : List (List ℕ))
      → frames n (cs ++ ds) ≡ frames n cs ++ frames (past n cs) ds
  frames-append n [] ds = refl
  frames-append n (c ∷ cs) ds = simp (frames-append (increment (increment n)) cs ds, append_assoc)

  put_payload-one :
      (p out n : List ℕ)
      → put_payload a p (faultless out n)
        ≡ (none, faultless (out ++ frames n (one p)) (past n (one p)))
  unfolding put_payload
  put_payload-one [] out n = rw append-nil refl
  put_payload-one (x ∷ xs) out n = rw append-nil (ground arith)

  module _ (mask : ℕ) (wide : 1 ≤ mask) where
    -- The result of the loop when the reader's bytes are copied as the chunks `cs`.
    abbrev pub Copies :
        Source
        → List ℕ
        → List ℕ
        → ℕ
        → Option (ℕ × Option Err × Writer × Source)
        → List (List ℕ)
        → Type 0
    Copies r out n k res cs =
        (res
          ≡ some (
            k + length (pending r),
            copy_error (ending r),
            faultless (out ++ frames n cs) (past n cs),
            closed (ending r),
          ))
        × (concat cs ≡ pending r)
        × All (IsChunk mask) cs

    loop_last :
        (fuel : ℕ) (r : Source) (out n : List ℕ) (k : ℕ) (e : Err)
        → (read mask r).1 ≡ some e
        → read_from_loop mask a (suc fuel) r (faultless out n) k
          ≡ some (
            k + length (read mask r).0,
            copy_error e,
            faultless (out ++ frames n (one (read mask r).0)) (past n (one (read mask r).0)),
            (read mask r).2,
          )
    unfolding read_from_loop
    loop_last fuel r out n k e h = ground (arith, put_payload-one (read mask r).0 out n)

    loop_more :
        (fuel : ℕ) (r : Source) (out n : List ℕ) (k : ℕ)
        → (read mask r).1 ≡ none
        → read_from_loop mask a (suc fuel) r (faultless out n) k
          ≡ read_from_loop mask a fuel
              (read mask r).2
              (faultless (out ++ frames n (one (read mask r).0)) (past n (one (read mask r).0)))
              (k + length (read mask r).0)
    unfolding read_from_loop
    loop_more fuel r out n k h = ground (arith, put_payload-one (read mask r).0 out n)

    -- A read that was not the last, and the copy of what follows it.
    Copies-more :
        (r r' : Source) (p out n : List ℕ) (k : ℕ) (cs : List (List ℕ))
        (res : Option (ℕ × Option Err × Writer × Source))
        → pending r ≡ p ++ pending r'
        → ending r' ≡ ending r
        → length p ≤ mask
        → Copies r' (out ++ frames n (one p)) (past n (one p)) (k + length p) res cs
        → Copies r out n k res (one p ++ cs)
    Copies-more r r' p out n k cs res cut same fits (e, whole, chunks) = (
      cc (
        e,
        frames-append n (one p) cs,
        past-append n (one p) cs,
        append_assoc out (frames n (one p)) (frames (past n (one p)) cs),
        same,
        sum,
      ),
      concat-append (one p) cs ∙ rw (concat-one p, whole) (sym cut),
      All-append (IsChunk mask) (one p) cs (one-IsChunk mask p fits) chunks,
    )
      where
        sum : k + length p + length (pending r') ≡ k + length (pending r)
        sum = omega (arith, ap length cut, length-append p (pending r'))

    Copies-last :
        (r r' : Source) (p out n : List ℕ) (k : ℕ) (res : Option (ℕ × Option Err × Writer × Source))
        → pending r ≡ p ++ pending r'
        → length p ≤ mask
        → r' ≡ closed (ending r)
        → res
          ≡ some (
            k + length p,
            copy_error (ending r),
            faultless (out ++ frames n (one p)) (past n (one p)),
            r',
          )
        → Copies r out n k res (one p)
    Copies-last r r' p out n k res cut fits stop e =
        (cc (e, stop, ap length all), concat-one p ∙ sym all, one-IsChunk mask p fits)
      where
        all : pending r ≡ p
        all = all_read p r cut stop

    read_from_loop-Copies :
        (fuel : ℕ) (r : Source) (out n : List ℕ) (k : ℕ)
        → turns r ≤ fuel
        → (cs : List (List ℕ)) × Copies r out n k
            (read_from_loop mask a fuel r (faultless out n) k)
            cs
    read_from_loop-Copies zero r out n k h = absurd (omega (arith, turns_pos r))
    read_from_loop-Copies (suc fuel) r out n k h =
        let (cut, same, fits, next) = read_facts mask r wide in
        let p = (read mask r).0 in
        elim next [
          | inr (e, stop) ↦ (
            one p,
            Copies-last r (read mask r).2 p out n k _ cut fits stop
                (loop_last fuel r out n k (ending r) e),
          )
          | inl (e, fewer) ↦
              let (cs, rest) =
                read_from_loop-Copies fuel (read mask r).2 (out ++ frames n (one p))
                  (past n (one p)) (k + length p) (omega arith) in
              (
                one p ++ cs,
                rw (loop_more fuel r out n k e)
                    (Copies-more r (read mask r).2 p out n k cs _ cut same fits rest),
              )
        ]

    -- `ReadFrom` copies every reader to its end: it returns the number of bytes read, nil at EOF
    -- and any other error as it is, and it writes the bytes as records of at most `mask` bytes.
    pub read_from-Copies :
        (r : Source) (out n : List ℕ)
        → (cs : List (List ℕ)) × Copies r out n 0 (read_from mask a r (faultless out n)) cs
    unfolding read_from
    read_from-Copies r out n = read_from_loop-Copies (turns r) r out n 0 (omega arith)
