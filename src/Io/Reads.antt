-- ===== src/Io/Reads.antt =====
-- io.Reader.Read, one call at a time, as the copy loops make it.
use go_shadowsocks.Prelude.{
  ℕ, ◌≤◌, ◌<◌, ◌≡◌, refl, ◌∙◌, List, ◌++◌, Option, none, some, length, take, drop, length-take,
  length-drop, take-append-drop, append_assoc, append-nil, ◌⊎◌, inr, if◌then◌else◌, arith,
}
use go_shadowsocks.Errors.{Err, is_eof}
use go_shadowsocks.Io.{Source, closed, last, chunk, pending, ending, read, turns}

-- The error that the copy loops return at a reader's last error: nil at EOF.
abbrev pub copy_error : Err → Option Err
copy_error e = if is_eof e then none else some e

-- One read: the bytes come off the front, and it is either no last one or the last.
pub read_facts :
    (room : ℕ) (r : Source)
    → 1 ≤ room
    → (pending r ≡ (read room r).0 ++ pending (read room r).2)
      × (ending (read room r).2 ≡ ending r)
      × (length (read room r).0 ≤ room)
      × (((read room r).1 ≡ none) × (turns (read room r).2 < turns r)
          ⊎ ((read room r).1 ≡ some (ending r)) × ((read room r).2 ≡ closed (ending r)))
read_facts room (closed e) h = (refl, refl, omega arith, inr (refl, refl))
read_facts room (last bs e) h =
    ground
      (arith, take-append-drop room bs, append-nil bs, length-take room bs, length-drop room bs)
read_facts room (chunk bs r) h = ground (
  arith,
  take-append-drop room bs,
  append_assoc (take room bs) (drop room bs) (pending r),
  length-take room bs,
  length-drop room bs,
)

pub turns_pos : (r : Source) → 1 ≤ turns r
turns_pos (closed e) = omega arith
turns_pos (last bs e) = omega arith
turns_pos (chunk bs r) = omega (arith, turns_pos r)

pub all_read :
    (p : List ℕ) (r : Source) {r' : Source} {e : Err}
    → pending r ≡ p ++ pending r'
    → r' ≡ closed e
    → pending r ≡ p
all_read p r cut stop = cut ∙ rw stop (append-nil p)
