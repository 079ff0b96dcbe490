-- ===== src/ShadowAead/Stream/Decode.antt =====
-- What `read` and `WriteTo` of shadowaead/stream.go make of the records that `ReadFrom` writes.
use Prim.Native.Nat.{bit_and}
use go_shadowsocks.Prelude.{
  ℕ, zero, suc, ◌+◌, ◌≤◌, ◌<◌, ◌≡◌, ◌∙◌, ap, sym, List, [], ◌∷◌, ◌++◌, some, length, take, concat,
  All, length-append, take-append, drop-append, append_assoc, append-nil, arith,
}
use go_shadowsocks.Errors.{ok, err}
use go_shadowsocks.Io.Reads.{copy_error}
use go_shadowsocks.Io.{Source, pending, ending, read_full}
use go_shadowsocks.Io.ReadFull.{read_full_enough, read_full_short}
use go_shadowsocks.ShadowAead.Aead.{Aead, IsAead}
use go_shadowsocks.ShadowAead.Nonce.{increment}
use go_shadowsocks.ShadowAead.Stream.{
  Reader, frame, size_bytes, payload_size, open_block, read_record, drain,
}
use go_shadowsocks.ShadowAead.Stream.Encode.{frames, past, IsChunk}

-- A setting of payloadSizeMask that the record layer can work with: two size bytes hold it, a size
-- block fits the buffer, and `&` leaves every size up to it alone.
pub record IsMask (mask : ℕ) : Type 0 where
  pub wide : 2 ≤ mask
  pub narrow : mask < 65536
  pub keeps : (n : ℕ) → n ≤ mask → bit_and n mask ≡ n

pub payload_size-size_bytes :
    (mask : ℕ) (m : IsMask mask) (n : ℕ) → n ≤ mask → payload_size mask (size_bytes n) ≡ n
unfolding payload_size
payload_size-size_bytes mask m n h =
    ap (λ k. bit_and k mask) (omega (arith, m.narrow)) ∙ m.keeps n h

-- A reader at the given state.
abbrev pub at : Source → List ℕ → List ℕ → Reader
at s n l = record { source = s; nonce = n; leftover = l }

module _ (a : Aead) (laws : IsAead a) where
  -- A sealed block at the front of the source is opened and taken off.
  pub open_block-seal :
      (p rest : List ℕ) (s : Source) (n l : List ℕ)
      → pending s ≡ a.seal n p ++ rest
      → (s' : Source) × (open_block a (length p) (at s n l) ≡ (ok p, at s' (increment n) l))
        × (pending s' ≡ rest)
        × (ending s' ≡ ending s)
  unfolding open_block
  open_block-seal p rest s n l e =
      let (got, left, end) = read_full_enough (length p + a.overhead) s enough in
      (
        (read_full (length p + a.overhead) s).1,
        ground (arith, got, opened),
        left ∙ rw e (drop-append (a.seal n p) rest _ (sym size)),
        end,
      )
    where
      size : length (a.seal n p) ≡ length p + a.overhead
      size = laws.seal_length n p

      opened : a.unseal n (take (length p + a.overhead) (pending s)) ≡ some p
      opened = rw (e, take-append (a.seal n p) rest _ (sym size)) (laws.unseal_seal n p)

      enough : length p + a.overhead ≤ length (pending s)
      enough = omega (arith, ap length e, length-append (a.seal n p) rest, size)

  -- With no byte left, `open_block` passes the reader's own error on.
  pub open_block_end :
      (k : ℕ) (s : Source) (n l : List ℕ)
      → 1 ≤ k
      → pending s ≡ []
      → (s' : Source) × (open_block a k (at s n l) ≡ (err (ending s), at s' n l))
        × (pending s' ≡ [])
        × (ending s' ≡ ending s)
  unfolding open_block
  open_block_end k s n l h e =
      let (got, left, end) = read_full_short (k + a.overhead) s (rw e (omega arith)) in
      ((read_full (k + a.overhead) s).1, ground (arith, got, e), left, end)

  module _ (mask : ℕ) (m : IsMask mask) where
    pub read_record-frame :
        (c rest : List ℕ) (s : Source) (n l : List ℕ)
        → IsChunk mask c
        → pending s ≡ frame a n c ++ rest
        → (s' : Source) × (read_record mask a (at s n l)
            ≡ (ok c, at s' (increment (increment n)) l))
          × (pending s' ≡ rest)
          × (ending s' ≡ ending s)
    unfolding read_record frame
    read_record-frame c rest s n l h e =
        let (s₁, got₁, left₁, end₁) =
          open_block-seal (size_bytes (length c)) (a.seal (increment n) c ++ rest) s n l
            (e ∙ append_assoc _ _ rest) in
        let (s₂, got₂, left₂, end₂) = open_block-seal c rest s₁ (increment n) l left₁ in
        (
          s₂,
          ground (arith, m.wide, got₁, got₂, payload_size-size_bytes mask m (length c) h.1),
          left₂,
          end₂ ∙ end₁,
        )

    pub read_record_end :
        (s : Source) (n l : List ℕ)
        → pending s ≡ []
        → (s' : Source) × (read_record mask a (at s n l) ≡ (err (ending s), at s' n l))
          × (pending s' ≡ [])
          × (ending s' ≡ ending s)
    unfolding read_record
    read_record_end s n l e =
        let (s', got, left, end) = open_block_end 2 s n l (omega arith) e in
        (s', ground (arith, m.wide, got), left, end)

    pub drain-frames :
        (cs : List (List ℕ)) (fuel : ℕ) (s : Source) (n l out : List ℕ) (k : ℕ)
        → All (IsChunk mask) cs
        → pending s ≡ frames a n cs
        → length cs < fuel
        → (s' : Source) × (drain mask a fuel (at s n l) (record { sent = out; faults = [] }) k
            ≡ some (
              k + length (concat cs),
              copy_error (ending s),
              at s' (past n cs) l,
              record { sent = out ++ concat cs; faults = [] },
            ))
    unfolding drain
    drain-frames cs zero s n l out k h e lt = elim lt [ ]
    drain-frames [] (suc fuel) s n l out k h e lt =
        let (s', got, left, end) = read_record_end s n l e in
        (s', ground (arith, got, append-nil out))
    drain-frames (c ∷ cs) (suc fuel) s n l out k h e lt =
        let (s', got, left, end) =
          read_record-frame c (frames a (increment (increment n)) cs) s n l h.0 e in
        let (s₂, rest) =
          drain-frames cs fuel s' (increment (increment n)) l (out ++ c) (k + length c) h.1 left
            (omega arith) in
        (
          s₂,
          ground
              (arith, got, rest, end, append_assoc out c (concat cs), length-append c (concat cs)),
        )
