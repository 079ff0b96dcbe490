-- ===== src/Udp/Runs.antt =====
-- The UDP relay at concrete inputs.
use go_shadowsocks.Prelude.{refl}
use go_shadowsocks.Udp.Nat.{
  get, State, start, receive, listen, Steps, here, and_then, received, listened,
}
use go_shadowsocks.Udp.Nat.Invariant.{Inv}
use go_shadowsocks.Udp.Nat.Preserved.{reached-Inv}

-- A datagram of peer 7, for which a socket is opened.
abbrev one_peer : State
one_peer = listen 7 (receive 7 start)

one_peer_reached : Steps start one_peer
unfolding start receive get
one_peer_reached =
    and_then start (receive 7 start) one_peer
      (and_then start start (receive 7 start) (here start) (received start 7 refl))
      (listened (receive 7 start) 7 refl)

reached-Inv_example : Inv one_peer
reached-Inv_example = reached-Inv one_peer one_peer_reached
