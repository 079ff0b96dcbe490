-- ===== src/ShadowAead/Stream/Faults.antt =====
-- Streams that `read` of shadowaead/stream.go does not take as they were meant.
use Prim.Native.Nat.{bit_and}
use native.Mathlib.Decide.{dec_le}
use go_shadowsocks.Prelude.{
  ℕ, ◌+◌, ◌≤◌, ◌<◌, ◌≡◌, ◌≢◌, refl, ◌∙◌, ap, List, [], ◌++◌, some, length, take, length-take,
  append-nil, append_assoc, holds_below, holds_below-at, ◌==◌, ==_iff, true, arith,
}
use go_shadowsocks.Errors.{ok, err}
use go_shadowsocks.Io.{Source, pending, ending}
use go_shadowsocks.Io.ReadFull.{read_full_enough, read_full_short}
use go_shadowsocks.ShadowAead.Aead.{Aead, IsAead}
use go_shadowsocks.ShadowAead.Nonce.{increment}
use go_shadowsocks.ShadowAead.Stream.{
  Reader, frame, payload_size, size_bytes, open_block, read_record,
}
use go_shadowsocks.ShadowAead.Stream.Decode.{
  IsMask, at, payload_size-size_bytes, open_block-seal, open_block_end,
}

module _ (a : Aead) (laws : IsAead a) where
  module _ (mask : ℕ) (m : IsMask mask) where
    -- A stream that is cut between the size block of a record and its payload ends with the reader's
    -- own error: at EOF `read` returns `eof`, as at a clean end between two records.
    pub read_record_cut :
        (k : ℕ) (s : Source) (n l : List ℕ)
        → 1 ≤ k
        → k ≤ mask
        → pending s ≡ a.seal n (size_bytes k)
        → (s' : Source) × (read_record mask a (at s n l) ≡ (err (ending s), at s' (increment n) l))
          × (pending s' ≡ [])
    unfolding read_record
    read_record_cut k s n l h hk e =
        let (s₁, got, left, end) =
          open_block-seal a laws (size_bytes k) [] s n l (e ∙ append-nil' _) in
        let (s₂, stop, none_left, _) = open_block_end a laws k s₁ (increment n) l h left in
        (s₂, ground (arith, m.wide, got, stop, end, payload_size-size_bytes mask m k hk), none_left)
      where
        append-nil' : (xs : List ℕ) → xs ≡ xs ++ []
        append-nil' xs = ground (arith, append-nil xs)

  -- An opened block has the length that was asked for.
  open_block_ok :
      (k : ℕ) (r r' : Reader) (p : List ℕ) → open_block a k r ≡ (ok p, r') → length p ≡ k
  unfolding open_block
  open_block_ok k r r' p e = elim (dec_le (k + a.overhead) (length (pending r.source))) [
    | yes h ↦
        let (got, _, _) = read_full_enough (k + a.overhead) r.source h in
        let c = take (k + a.overhead) (pending r.source) in
        let opened : a.unseal r.nonce c ≡ some p = ground (arith, got) in
        omega (
          arith,
          laws.unseal_length r.nonce c p opened,
          length-take (k + a.overhead) (pending r.source),
        )
    | no h ↦ absurd (ground (arith, read_full_short (k + a.overhead) r.source (omega arith)))
  ]

-- With SetPayloadSize(4096) the sizes below 4096 have no bit in common with the mask.
no_common_bit : holds_below (λ n. bit_and n 4096 == 0) 4096 ≡ true
unfolding holds_below
no_common_bit = refl

payload_size_lost : (n : ℕ) → n < 4096 → payload_size 4096 (size_bytes n) ≡ 0
unfolding payload_size
payload_size_lost n h =
    ap (λ k. bit_and k 4096) (omega arith)
    ∙ (==_iff _ 0).0 (holds_below-at _ 4096 n h no_common_bit)

-- So no record of 1 to 4095 bytes is ever read back under that setting.
pub read_record_lost :
    (a : Aead) (laws : IsAead a) (c rest : List ℕ) (s : Source) (n l : List ℕ) (r' : Reader)
    → 1 ≤ length c
    → length c < 4096
    → pending s ≡ frame a n c ++ rest
    → read_record 4096 a (at s n l) ≢ (ok c, r')
unfolding read_record frame
read_record_lost a laws c rest s n l r' h lt e run =
    let (s₁, got, left, end) =
      open_block-seal a laws (size_bytes (length c)) (a.seal (increment n) c ++ rest) s n l
        (e ∙ append_assoc _ _ rest) in
    let second : open_block a 0 (at s₁ (increment n) l) ≡ (ok c, r') =
      ground (arith, run, got, payload_size_lost (length c) lt) in
    absurd (omega (arith, open_block_ok a laws 0 _ r' c second))
