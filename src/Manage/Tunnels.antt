-- ===== src/Manage/Tunnels.antt =====
-- clientlib/manageAccel.go: StartUDPTunnel, StartUDPWSTunnel and StartTCPtunnel, up to the loop that
-- they run with the listening address and the target, the two halves of `tunnel`.
use go_shadowsocks.Manage.Starts.{lift, modify}
use go_shadowsocks.Prelude.{List, true, ℕ}
use go_shadowsocks.Manage.{Package}
use go_shadowsocks.Errors.{Result, M, ◌>>=◌, ◌>>◌}
use go_shadowsocks.Strings.{split, halves}

abbrev pub enable_udp : Package → Package
enable_udp s = record s { verbose = true; udp_enabled = true }

-- `addr` is resolved behind strings.Split and in front of `p[1]`, which panics without a `=`.
unfoldable pub start_udp_tunnel : Result ℕ → Result ℕ → List ℕ → M Package (List ℕ × List ℕ)
start_udp_tunnel picked resolved tunnel = do
  modify (λ s. record s { verbose = true })
  ciph ← lift picked
  modify enable_udp
  addr ← lift resolved
  lift (halves (split b'=' tunnel))

unfoldable pub start_udp_ws_tunnel : Result ℕ → List ℕ → M Package (List ℕ × List ℕ)
start_udp_ws_tunnel picked tunnel = do
  modify (λ s. record s { verbose = true })
  ciph ← lift picked
  modify enable_udp
  lift (halves (split b'=' tunnel))

unfoldable pub start_tcp_tunnel : Result ℕ → List ℕ → M Package (List ℕ × List ℕ)
start_tcp_tunnel picked tunnel = do
  modify (λ s. record s { verbose = true })
  ciph ← lift picked
  lift (halves (split b'=' tunnel))
