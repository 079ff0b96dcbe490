-- ===== src/Freconn/Account.antt =====
-- What the counters of package freconn count, over any sequence of transfers of connections that share
-- them.
use go_shadowsocks.Prelude.{
  ◌==◌, ℕ, ◌+◌, ◌*◌, ◌/◌, ◌%◌, ◌^◌, ◌<◌, ◌≡◌, refl, ◌∙◌, true, not, ◌&&◌, List, [], ◌∷◌, Option,
  none, some, All, holds_below, holds_below-at, arith,
}
use go_shadowsocks.Errors.{Err}
use go_shadowsocks.Freconn.Counters.{
  Stat, minus64, tick1, tick10, add_rx, add_tx, bandwidth1, bandwidth10,
}
use go_shadowsocks.Freconn.{
  bit_or, bit_and, Conn, flag_stat, have_flag, enable_stat, conn_read, conn_write,
}

-- A connection that counts.
abbrev pub Counting : {B : Type 0} → Conn B → Type 0
Counting c = (have_flag c.flag flag_stat && c.has_stat) ≡ true

-- `EnableStat` turns the counting on, whatever the flags were.
pub enable_stat-Counting : {B : Type 0} (c : Conn B) → c.flag < 4 → Counting (enable_stat c)
unfolding enable_stat have_flag holds_below
enable_stat-Counting c h =
    let on = holds_below-at (λ f. not (bit_and (bit_or f 2) 2 == 0)) 4 c.flag h refl in
    ground (arith, on)

-- Adding in two steps of eight times a count each, with the wrap of every step.
sum_wraps :
    (a n m : ℕ) → ((a + n * 8 % 2 ^ 64) % 2 ^ 64 + 8 * m) % 2 ^ 64 ≡ (a + 8 * (n + m)) % 2 ^ 64
sum_wraps a n m = omega arith

difference_wraps : (a n : ℕ) → a < 2 ^ 64 → minus64 ((a + n) % 2 ^ 64) a ≡ n % 2 ^ 64
difference_wraps a n h = omega arith

module _ {B : Type 0} (wait : B → ℕ → B) where
  -- A transfer: a read with the outcome of the wrapped connection, or a write.
  pub data Transfer : Type 0 where
    came : Conn B → ℕ → Option Err → Transfer
    went : Conn B → ℕ → ℕ → Option Err → Transfer

  unfoldable pub transfer : Transfer → Stat → Stat
  transfer (came c n e) s = (conn_read wait (n, e) c s).2
  transfer (went c len n e) s = (conn_write wait len (n, e) c s).2

  unfoldable pub transfers : List Transfer → Stat → Stat
  transfers [] s = s
  transfers (x ∷ xs) s = transfers xs (transfer x s)

  abbrev pub conn_of : Transfer → Conn B
  conn_of (came c n e) = c
  conn_of (went c len n e) = c

  -- The bytes that were transferred without an error.
  unfoldable pub bytes_in : List Transfer → ℕ
  bytes_in [] = 0
  bytes_in (came c n none ∷ xs) = n + bytes_in xs
  bytes_in (came c n (some e) ∷ xs) = bytes_in xs
  bytes_in (went c len n e ∷ xs) = bytes_in xs

  unfoldable pub bytes_out : List Transfer → ℕ
  bytes_out [] = 0
  bytes_out (went c len n none ∷ xs) = n + bytes_out xs
  bytes_out (went c len n (some e) ∷ xs) = bytes_out xs
  bytes_out (came c n e ∷ xs) = bytes_out xs

  -- The counters after any sequence of transfers of counting connections: what they were, and eight
  -- times the bytes that were transferred without an error, modulo 2 ^ 64. The rest is unchanged.
  pub transfers_counted :
      (xs : List Transfer) (s : Stat)
      → s.rx < 2 ^ 64
      → s.tx < 2 ^ 64
      → All (λ x. Counting (conn_of x)) xs
      → transfers xs s ≡ record s {
        rx = (s.rx + 8 * bytes_in xs) % 2 ^ 64;
        tx = (s.tx + 8 * bytes_out xs) % 2 ^ 64;
      }
  unfolding transfers transfer bytes_in bytes_out conn_read conn_write add_rx add_tx
  transfers_counted [] s hr ht h = ground (arith)
  transfers_counted (came c n none ∷ xs) s hr ht h =
      rw h.0 (transfers_counted xs _ (omega arith) ht h.1 ∙ cc (sum_wraps s.rx n (bytes_in xs)))
  transfers_counted (came c n (some e) ∷ xs) s hr ht h = transfers_counted xs s hr ht h.1
  transfers_counted (went c len n none ∷ xs) s hr ht h =
      rw h.0 (transfers_counted xs _ hr (omega arith) h.1 ∙ cc (sum_wraps s.tx n (bytes_out xs)))
  transfers_counted (went c len n (some e) ∷ xs) s hr ht h = transfers_counted xs s hr ht h.1

  -- Between two turns of `RunBandwidthIn1`, `Bandwidth1` becomes the bits of the transfers in between,
  -- modulo 2 ^ 64.
  pub bandwidth1_window :
      (xs : List Transfer) (s : Stat) (now later : ℕ)
      → s.rx < 2 ^ 64
      → s.tx < 2 ^ 64
      → All (λ x. Counting (conn_of x)) xs
      → bandwidth1 (tick1 later (transfers xs (tick1 now s)))
        ≡ (8 * bytes_in xs % 2 ^ 64, 8 * bytes_out xs % 2 ^ 64, later)
  unfolding bandwidth1 tick1
  bandwidth1_window xs s now later hr ht h =
      rw (transfers_counted xs (tick1 now s) hr ht h) (
        cc
          (difference_wraps s.rx (8 * bytes_in xs) hr, difference_wraps s.tx (8 * bytes_out xs) ht))

  -- Between two turns of `RunBandwidthIn10`, `Bandwidth10` becomes a tenth of those bits.
  pub bandwidth10_window :
      (xs : List Transfer) (s : Stat) (now later : ℕ)
      → s.rx < 2 ^ 64
      → s.tx < 2 ^ 64
      → All (λ x. Counting (conn_of x)) xs
      → bandwidth10 (tick10 later (transfers xs (tick10 now s)))
        ≡ (8 * bytes_in xs % 2 ^ 64 / 10, 8 * bytes_out xs % 2 ^ 64 / 10, later)
  unfolding bandwidth10 tick10
  bandwidth10_window xs s now later hr ht h =
      rw (transfers_counted xs (tick10 now s) hr ht h) (
        cc
          (difference_wraps s.rx (8 * bytes_in xs) hr, difference_wraps s.tx (8 * bytes_out xs) ht))
