-- ===== src/Io/Separate.antt =====
-- Readers of Go's that return an error with no byte.
use go_shadowsocks.Prelude.{ℕ, zero, suc, ◌-◌, ◌≡◌, refl, [], none, length, ◌⊎◌, inr, arith}
use go_shadowsocks.Io.{Source, closed, last, chunk, read, gather, full, read_full}

-- Readers whose errors come alone, as those of a TCP connection do.
abbrev pub Separate : Source → Type 0
Separate (closed e) = Unit {0}
Separate (last bs e) = ⊥
Separate (chunk bs r) = Separate r

-- Such a reader stays so, and its last read brings no byte.
pub Separate-read :
    (buf_len : ℕ) (s : Source)
    → Separate s
    → Separate (read buf_len s).2 × (((read buf_len s).1 ≡ none) ⊎ ((read buf_len s).0 ≡ []))
Separate-read buf_len (closed e) h = (tt, inr refl)
Separate-read buf_len (last bs e) h = absurd h
Separate-read buf_len (chunk bs r) h = ground arith

-- io.ReadFull leaves the later errors alone.
gather-Separate : (n : ℕ) (s : Source) → Separate s → Separate (gather n s).2
unfolding gather
gather-Separate zero s d = d
gather-Separate (suc n) (closed e) d = tt
gather-Separate (suc n) (last bs e) d = absurd d
gather-Separate (suc n) (chunk bs r) d = ground (arith, gather-Separate (suc n - length bs) r d)

pub read_full-Separate : (n : ℕ) (s : Source) → Separate s → Separate (read_full n s).1
unfolding read_full full
read_full-Separate n s d = ground (arith, gather-Separate n s d)
