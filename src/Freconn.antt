-- ===== src/Freconn.antt =====
-- Package freconn: connections that are counted and slowed down. Go's uint64 wraps; the buckets of
-- github.com/juju/ratelimit are a parameter, and time.Now() is an argument.
pub mod Counters
pub mod Account
pub mod Runs
use Prim.Native.Nat.{bit_and, bit_or}
use go_shadowsocks.Prelude.{
  ℕ, ◌*◌, ◌%◌, ◌^◌, Bool, true, false, not, ◌&&◌, List, Option, none, some, length, ◌==◌,
  if◌then◌else◌,
}
use go_shadowsocks.Errors.{Err}
use go_shadowsocks.Freconn.Counters.{Stat, add_rx, add_tx}

-- `FlagRatelimit` and `FlagStat`.
abbrev pub flag_ratelimit : ℕ
flag_ratelimit = 1

abbrev pub flag_stat : ℕ
flag_stat = 2

unfoldable pub have_flag : ℕ → ℕ → Bool
have_flag flag have = not (bit_and flag have == 0)

-- `Conn` beside the connection that it wraps. `has_stat` is `Stat != nil`: the counters stand apart,
-- since several connections may share them.
pub record Conn (B : Type 0) : Type 0 where
  pub flag : ℕ
  pub tx_bucket : Option B
  pub rx_bucket : Option B
  pub has_stat : Bool

-- `PacketConn`.
pub record PacketConn (B : Type 0) : Type 0 where
  pub flag : ℕ
  pub tx_bucket : Option B
  pub rx_bucket : Option B
  pub has_stat : Bool

module _ {B : Type 0} where
  unfoldable pub upgrade_conn : Conn B
  upgrade_conn = record { flag = 0; tx_bucket = none; rx_bucket = none; has_stat = false }

  -- `EnableStat(stat)`, for a `stat` that is not nil.
  unfoldable pub enable_stat : Conn B → Conn B
  enable_stat c = record c { flag = bit_or c.flag flag_stat; has_stat = true }

  unfoldable pub upgrade_packet_conn : PacketConn B
  upgrade_packet_conn = record { flag = 0; tx_bucket = none; rx_bucket = none; has_stat = false }

  unfoldable pub enable_packet_stat : PacketConn B → PacketConn B
  enable_packet_stat c = record c { flag = bit_or c.flag flag_stat; has_stat = true }

-- `wait b n` is the bucket after `b.Wait(n)`.
module _ {B : Type 0} (wait : B → ℕ → B) where
  -- `if haveFlag(c.Flag, FlagRatelimit) && bucket != nil { bucket.Wait(bits) }`.
  abbrev pub wait_bits : ℕ → ℕ → Option B → Option B
  wait_bits flag bits none = none
  wait_bits flag bits (some b) =
      if have_flag flag flag_ratelimit then some (wait b bits) else some b

  -- `Read(b)`, where the wrapped connection returned `(n, err)`.
  unfoldable pub conn_read : ℕ × Option Err → Conn B → Stat → (ℕ × Option Err) × Conn B × Stat
  conn_read (n, some e) c s = ((n, some e), c, s)
  conn_read (n, none) c s = (
    (n, none),
    record c { rx_bucket = wait_bits c.flag (n * 8) c.rx_bucket },
    (if have_flag c.flag flag_stat && c.has_stat then add_rx (n * 8 % 2 ^ 64) s else s),
  )

  -- `Write(b)` with len(b) = len, where the wrapped connection returned `(n, err)`.
  abbrev pub slowed : ℕ → Conn B → Conn B
  slowed len c = record c { tx_bucket = wait_bits c.flag (len * 8) c.tx_bucket }

  unfoldable pub conn_write : ℕ → ℕ × Option Err → Conn B → Stat → (ℕ × Option Err) × Conn B × Stat
  conn_write len (n, some e) c s = ((n, some e), slowed len c, s)
  conn_write len (n, none) c s = (
    (n, none),
    slowed len c,
    (if have_flag c.flag flag_stat && c.has_stat then add_tx (n * 8 % 2 ^ 64) s else s),
  )

  -- `ReadFrom(b)` and `WriteTo(b, addr)`; the address is passed on.
  unfoldable pub packet_read :
      {A : Type 0}
      → ℕ × A × Option Err
      → PacketConn B
      → Stat
      → (ℕ × A × Option Err) × PacketConn B × Stat
  packet_read (n, a, some e) c s = ((n, a, some e), c, s)
  packet_read (n, a, none) c s = (
    (n, a, none),
    record c { rx_bucket = wait_bits c.flag (n * 8) c.rx_bucket },
    (if have_flag c.flag flag_stat && c.has_stat then add_rx (n * 8 % 2 ^ 64) s else s),
  )

  abbrev pub packet_slowed : ℕ → PacketConn B → PacketConn B
  packet_slowed len c = record c { tx_bucket = wait_bits c.flag (len * 8) c.tx_bucket }

  unfoldable pub packet_write :
      ℕ → ℕ × Option Err → PacketConn B → Stat → (ℕ × Option Err) × PacketConn B × Stat
  packet_write len (n, some e) c s = ((n, some e), packet_slowed len c, s)
  packet_write len (n, none) c s = (
    (n, none),
    packet_slowed len c,
    (if have_flag c.flag flag_stat && c.has_stat then add_tx (n * 8 % 2 ^ 64) s else s),
  )
