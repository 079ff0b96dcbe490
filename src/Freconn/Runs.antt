-- ===== src/Freconn/Runs.antt =====
-- The counters of package freconn at concrete inputs.
use go_shadowsocks.Prelude.{ℕ, ◌≡◌, refl, ◌+◌, List, [], ◌∷◌, none, some, arith}
use go_shadowsocks.Errors.{eof}
use go_shadowsocks.Freconn.{have_flag, true, Conn}
use go_shadowsocks.Freconn.Counters.{Stat, reset_status, tick10, bandwidth10}
use go_shadowsocks.Freconn.Account.{
  Transfer, came, went, transfers, transfers_counted, bandwidth10_window, bytes_in, bytes_out,
}

-- A bucket that counts what was waited for, and a connection that counts.
abbrev wait : ℕ → ℕ → ℕ
wait b n = b + n

abbrev counted : Conn ℕ
counted = record { flag = 2; tx_bucket = none; rx_bucket = some 0; has_stat = true }

abbrev traffic : List (Transfer wait)
traffic = came counted 10 none ∷ went counted 5 5 none ∷ came counted 3 (some eof) ∷ []

abbrev counters : Stat
counters = record { rx = 100; tx = 7; in1 = reset_status 1; in10 = reset_status 1 }

transfers_counted_example : transfers wait traffic counters ≡ record counters { rx = 180; tx = 47 }
unfolding bytes_in bytes_out have_flag
transfers_counted_example =
    transfers_counted wait traffic counters (omega arith) (omega arith) (refl, (refl, (refl, tt)))

bandwidth10_window_example :
    bandwidth10 (tick10 12 (transfers wait traffic (tick10 2 counters))) ≡ (8, 4, 12)
unfolding bytes_in bytes_out have_flag
bandwidth10_window_example =
    bandwidth10_window wait traffic counters 2 12 (omega arith) (omega arith)
      (refl, (refl, (refl, tt)))
