-- ===== src/Freconn/Counters.antt =====
-- freconn/stat.go: the counters and the bandwidth of the last second and of the last ten. Times are
-- numbers; uint64 wraps.
use go_shadowsocks.Prelude.{ℕ, ◌+◌, ◌-◌, ◌/◌, ◌%◌, ◌^◌}

-- `statStatus`.
pub record Status : Type 0 where
  pub t : ℕ
  pub rx : ℕ
  pub tx : ℕ
  pub bandwidth_rx : ℕ
  pub bandwidth_tx : ℕ

pub record Stat : Type 0 where
  pub rx : ℕ
  pub tx : ℕ
  pub in1 : Status
  pub in10 : Status

-- `statStatus.Reset`, also the value that `NewStat` builds.
unfoldable pub reset_status : ℕ → Status
reset_status now = record { t = now; rx = 0; tx = 0; bandwidth_rx = 0; bandwidth_tx = 0 }

-- `NewStat` without its two goroutines, whose turns are `tick1` and `tick10`; and `Reset`.
unfoldable pub new_stat : ℕ → Stat
new_stat now = record { rx = 0; tx = 0; in1 = reset_status now; in10 = reset_status now }

unfoldable pub reset_stat : ℕ → Stat → Stat
reset_stat now s = record s { rx = 0; tx = 0; in1 = reset_status now; in10 = reset_status now }

-- The difference of two uint64.
abbrev pub minus64 : ℕ → ℕ → ℕ
minus64 a b = (a + 2 ^ 64 - b) % 2 ^ 64

-- A turn of `RunBandwidthIn1` and of `RunBandwidthIn10`.
unfoldable pub tick1 : ℕ → Stat → Stat
tick1 now s = record s {
  in1 = record {
    t = now;
    rx = s.rx;
    tx = s.tx;
    bandwidth_rx = minus64 s.rx s.in1.rx;
    bandwidth_tx = minus64 s.tx s.in1.tx;
  };
}

unfoldable pub tick10 : ℕ → Stat → Stat
tick10 now s = record s {
  in10 = record {
    t = now;
    rx = s.rx;
    tx = s.tx;
    bandwidth_rx = minus64 s.rx s.in10.rx / 10;
    bandwidth_tx = minus64 s.tx s.in10.tx / 10;
  };
}

-- `AddRx` and `AddTx`.
unfoldable pub add_rx : ℕ → Stat → Stat
add_rx len s = record s { rx = (s.rx + len) % 2 ^ 64 }

unfoldable pub add_tx : ℕ → Stat → Stat
add_tx len s = record s { tx = (s.tx + len) % 2 ^ 64 }

-- `Bandwidth1` and `Bandwidth10`.
unfoldable pub bandwidth1 : Stat → ℕ × ℕ × ℕ
bandwidth1 s = (s.in1.bandwidth_rx, s.in1.bandwidth_tx, s.in1.t)

unfoldable pub bandwidth10 : Stat → ℕ × ℕ × ℕ
bandwidth10 s = (s.in10.bandwidth_rx, s.in10.bandwidth_tx, s.in10.t)
