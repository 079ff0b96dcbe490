-- ===== src/Io/ReadFull.antt =====
-- io.ReadFull over every way in which a reader may cut its bytes.
use go_shadowsocks.Prelude.{
  ℕ, zero, suc, ◌-◌, ◌≤◌, ◌<◌, ◌≡◌, refl, ◌∙◌, ap, sym, subst, List, [], Option, none, some, length,
  take, drop, length-append, length-take, take-all, drop-all, take-append_ge, take-append_le,
  drop-append_ge, drop-append_le, arith,
}
use go_shadowsocks.Errors.{Err, ok, err}
use go_shadowsocks.Io.{
  Source, closed, last, chunk, pending, ending, gather, full, full_error, read_full,
}

-- The loop takes the bytes in order, whatever the cuts, and the error only where they run out.
gather_bytes : (n : ℕ) (s : Source) → (gather n s).0 ≡ take n (pending s)
unfolding gather
gather_bytes zero s = refl
gather_bytes (suc n) (closed e) = refl
gather_bytes (suc n) (last bs e) = ground (arith, take-all bs (suc n))
gather_bytes (suc n) (chunk bs r) = ground (
  arith,
  gather_bytes (suc n - length bs) r,
  take-append_ge bs (pending r) (suc n),
  take-append_le bs (pending r) (suc n),
)

pending-gather : (n : ℕ) (s : Source) → pending (gather n s).2 ≡ drop n (pending s)
unfolding gather
pending-gather zero s = refl
pending-gather (suc n) (closed e) = refl
pending-gather (suc n) (last bs e) = ground (arith, drop-all bs (suc n))
pending-gather (suc n) (chunk bs r) = ground (
  arith,
  pending-gather (suc n - length bs) r,
  drop-append_ge bs (pending r) (suc n),
  drop-append_le bs (pending r) (suc n),
)

ending-gather : (n : ℕ) (s : Source) → ending (gather n s).2 ≡ ending s
unfolding gather
ending-gather zero s = refl
ending-gather (suc n) (closed e) = refl
ending-gather (suc n) (last bs e) = ground arith
ending-gather (suc n) (chunk bs r) = ground (arith, ending-gather (suc n - length bs) r)

-- The loop stops short only with the reader's error.
gather_short : (n : ℕ) (s : Source) → length (pending s) < n → (gather n s).1 ≡ some (ending s)
unfolding gather
gather_short zero s h = elim h [ ]
gather_short (suc n) (closed e) h = refl
gather_short (suc n) (last bs e) h = ground arith
gather_short (suc n) (chunk bs r) h =
    ground (arith, length-append bs (pending r), gather_short (suc n - length bs) r)

full_enough :
    (n : ℕ) (bs : List ℕ) (e : Option Err) (r : Source)
    → n ≤ length bs
    → full n (bs, e, r) ≡ (ok bs, r)
unfolding full
full_enough n bs none r h = refl
full_enough n bs (some e) r h = ground arith

full_short :
    (n : ℕ) (bs : List ℕ) (e : Err) (r : Source)
    → length bs < n
    → full n (bs, some e, r) ≡ (err (full_error (length bs) e), r)
unfolding full
full_short n bs e r h = ground arith

-- With enough bytes to come, `read_full` returns the first n and leaves the rest in place.
pub read_full_enough :
    (n : ℕ) (s : Source)
    → n ≤ length (pending s)
    → ((read_full n s).0 ≡ ok (take n (pending s)))
      × (pending (read_full n s).1 ≡ drop n (pending s))
      × (ending (read_full n s).1 ≡ ending s)
unfolding read_full
read_full_enough n s h = rw whole (ap ok (gather_bytes n s), pending-gather n s, ending-gather n s)
  where
    whole : full n (gather n s) ≡ (ok (gather n s).0, (gather n s).2)
    whole =
        full_enough n (gather n s).0 (gather n s).1 (gather n s).2
          (rw (gather_bytes n s) (omega (arith, length-take n (pending s))))

-- With too few, it fails by the reader's error, read as `unexpected_eof` if some byte came before
-- the end, and nothing is left.
pub read_full_short :
    (n : ℕ) (s : Source)
    → length (pending s) < n
    → ((read_full n s).0 ≡ err (full_error (length (pending s)) (ending s)))
      × (pending (read_full n s).1 ≡ [])
      × (ending (read_full n s).1 ≡ ending s)
unfolding read_full
read_full_short n s h = rw whole (
  ap (λ (bs : List ℕ). err (full_error (length bs) (ending s))) all,
  pending-gather n s ∙ drop-all (pending s) n (omega arith),
  ending-gather n s,
)
  where
    all : (gather n s).0 ≡ pending s
    all = gather_bytes n s ∙ take-all (pending s) n (omega arith)

    whole :
        full n (gather n s) ≡ (err (full_error (length (gather n s).0) (ending s)), (gather n s).2)
    whole =
        subst
          (λ e.
            full n ((gather n s).0, e, (gather n s).2)
            ≡ (err (full_error (length (gather n s).0) (ending s)), (gather n s).2))
          (sym (gather_short n s h)) (full_short n _ _ _ (rw all h))
