-- ===== src/Client/Dialers/Order.antt =====
-- The connecters of clientlib/tcp.go and clientlib/websocket.go: what becomes of errors and of a nil
-- dialer.
use go_shadowsocks.Errors.{panic, ok, Err}
use go_shadowsocks.Client.Dialers.{
  default_timeout, counted, ws_connect, connect, WsConnecter, dial_packet_conn, packet_conn_as,
  set_timeout,
}
use go_shadowsocks.Prelude.{
  ◌↔◌, ℕ, ◌≡◌, ◌≢◌, ◌⊎◌, inl, inr, refl, Option, none, some, Option-cases, List, [], ◌∷◌, arith,
}

-- A call of one of the methods that set the dialer.
pub data Call : Type 0 where
  sets_timeout : ℕ → Call
  connects : (List ℕ → ℕ → ℕ ⊎ Err) → Call

pub calls : List Call → WsConnecter → WsConnecter
calls [] w = w
calls (sets_timeout t ∷ cs) w = calls cs (set_timeout t w)
calls (connects dial ∷ cs) w = calls cs (ws_connect dial w).1

stays_set : (cs : List Call) (w : WsConnecter) → w.dailer ≢ none → (calls cs w).dailer ≢ none
unfolding calls set_timeout ws_connect
stays_set [] w h = h
stays_set (sets_timeout t ∷ cs) w h =
    stays_set cs (set_timeout t w) (λ e. ground (arith, e, Option-cases w.dailer))
stays_set (connects dial ∷ cs) w h = stays_set cs (ws_connect dial w).1 (λ e. cc e)

packet_conn_ok :
    (o : Option ℕ) (local : ℕ) (username : List ℕ)
    → o ≢ none
    → packet_conn_as o local username ≢ panic
packet_conn_ok none local username h e = h refl
packet_conn_ok (some t) local username h e = cc e

-- DialPacketConn of a new WSConnecter panics exactly where neither SetTimeout nor Connect was called
-- on it before.
pub dial_packet_conn-panic :
    (username : List ℕ) (local : ℕ) (cs : List Call)
    → (dial_packet_conn local (calls cs (record { username = username; dailer = none })) ≡ panic)
      ↔ (cs ≡ [])
unfolding dial_packet_conn calls set_timeout ws_connect
dial_packet_conn-panic username local [] = (λ e. refl, λ e. refl)
dial_packet_conn-panic username local (sets_timeout t ∷ cs) = (
  λ e. absurd (
      packet_conn_ok _ local _
        (stays_set cs (record { username = username; dailer = some t }) (λ n. cc n)) e),
  λ e. absurd (cc e),
)
dial_packet_conn-panic username local (connects dial ∷ cs) = (
  λ e. absurd (
      packet_conn_ok _ local _
        (stays_set cs (record { username = username; dailer = some default_timeout }) (λ n. cc n))
        e),
  λ e. absurd (cc e),
)

-- TCPConnecter.Connect with a local address returns no error where DialTCP fails, but a connection
-- around whatever DialTCP returned; without one it returns the error of Dial.
pub connect-fails :
    (local : Option ℕ) (c : Option ℕ) (e : Err)
    → ((local ≡ none) × (connect local (c, some e) (ok (c, some e)) ≡ (none, some e)))
      ⊎ ((local ≢ none) × (connect local (c, some e) (ok (c, some e)) ≡ (some (counted c), none)))
unfolding connect
connect-fails none c e = inl (refl, refl)
connect-fails (some a) c e = inr (λ n. cc n, refl)
