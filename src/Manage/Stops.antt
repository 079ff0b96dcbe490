-- ===== src/Manage/Stops.antt =====
-- clientlib/manageAccel.go: the functions that stop a session, and the counters that the application
-- reads.
use go_shadowsocks.Prelude.{◌-◌, ◌^◌, false, none, ltb, if◌then◌else◌, Bool, some, ℕ, Option}
use go_shadowsocks.Errors.{Err, not_a_client}
use go_shadowsocks.Freconn.Counters.{reset_stat, bandwidth1, bandwidth10}
use go_shadowsocks.Client.{Client, stop}
use go_shadowsocks.Manage.{Package, ℤ, pos, negsuc}

abbrev pub stop_client : Option Client → Package → Option Err × Package
stop_client none s = (none, s)
stop_client (some c) s = ((stop c).0, record s { client = some (stop c).1 })

-- `StopTCPUDP`, and `StopWebsocket`, which does the same.
unfoldable pub stop_tcp_udp : ℕ → Package → Option Err × Package
stop_tcp_udp now s = stop_client s.client (record s { stat = reset_stat now s.stat })

unfoldable pub stop_websocket : ℕ → Package → Option Err × Package
stop_websocket now s = stop_client s.client (record s { stat = reset_stat now s.stat })

-- `StopWebsocketMpx`.
abbrev pub close_mpx : Option Bool → Option Bool
close_mpx none = none
close_mpx (some pool) = some false

unfoldable pub stop_websocket_mpx : ℕ → Package → Option Err × Package
stop_websocket_mpx now s =
    let s' = (stop_client s.client (record s { stat = reset_stat now s.stat })).1 in
    (some not_a_client, record s' { mc = close_mpx s'.mc })

-- `StatReset`.
unfoldable pub stat_reset : ℕ → Package → Package
stat_reset now s = record s { stat = reset_stat now s.stat }

-- int64 of a uint64.
unfoldable pub to_int64 : ℕ → ℤ
to_int64 n = if ltb n (2 ^ 63) then pos n else negsuc (2 ^ 64 - 1 - n)

-- `BandwidthInfo`, and `Bandwidth1` and `Bandwidth10`, whose times are Unix times.
pub record BandwidthInfo : Type 0 where
  pub rx : ℤ
  pub tx : ℤ
  pub timestamp : ℕ

abbrev pub info_of : ℕ × ℕ × ℕ → BandwidthInfo
info_of (r, t, time) = record { rx = to_int64 r; tx = to_int64 t; timestamp = time }

unfoldable pub last_bandwidth1 : Package → BandwidthInfo
last_bandwidth1 s = info_of (bandwidth1 s.stat)

unfoldable pub last_bandwidth10 : Package → BandwidthInfo
last_bandwidth10 s = info_of (bandwidth10 s.stat)

-- `GetRx` and `GetTx`.
unfoldable pub get_rx : Package → ℤ
get_rx s = to_int64 s.stat.rx

unfoldable pub get_tx : Package → ℤ
get_tx s = to_int64 s.stat.tx
