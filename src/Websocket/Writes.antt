-- ===== src/Websocket/Writes.antt =====
-- websocket/packetconn.go: what WriteTo does.
use go_shadowsocks.Udp.Nat.{get, put}
use go_shadowsocks.Errors.{conn_closed, Err}
use go_shadowsocks.Websocket.{
  dial_if, send_to, unless_found, stored, connected, timeout_of, refused, handle_dialed,
  set_write_deadline, unless_failed, dial_addr, write_to, handle_ws_conn, deliver, with_dialer,
  State, Dialed,
}
use go_shadowsocks.Prelude.{
  not, ◌&&◌, ℕ, ◌≡◌, ◌⊎◌, inl, inr, refl, ap, ◌∙◌, Bool, true, false, Bool-cases, Option, none,
  some, List, ◌∷◌, length, leb, ◌==◌, if◌then◌else◌,
}

module _ (is_ws_addr : ℕ → Bool) (dial : List ℕ → ℕ → ℕ → Dialed) (default : ℕ) where
  -- What WriteTo has done when it returns r: a length, an error and the new state.
  abbrev pub Written : Option Err → List ℕ → ℕ → State → ℕ × Option Err × State → Type 0
  Written fault p addr s r =
      ((conn : ℕ) × (get addr r.2.conns ≡ some conn)
        × (r.0 ≡ length p)
        × (r.1 ≡ fault)
        × (r.2.sent ≡ (conn, p) ∷ s.sent))
      ⊎ ((err : Err) × (get addr s.conns ≡ none)
          × (get addr r.2.conns ≡ none)
          × (r.0 ≡ 0)
          × (r.1 ≡ some err)
          × (r.2.sent ≡ s.sent))

  -- What WriteTo returns.
  abbrev pub result_of : ℕ × Option Err × State → ℕ × Option Err
  result_of (n, e, s) = (n, e)

  module _ (fault : Option Err) (p : List ℕ) (addr : ℕ) (s t : State)
      (same : t.conns ≡ s.conns) where
    stored_same :
        (o : Option ℕ) (conn local : ℕ) (u v : State)
        → u.conns ≡ v.conns
        → (stored o conn local addr u).1.conns ≡ (stored o conn local addr v).1.conns
    stored_same none conn local u v e = ap (put addr conn) e
    stored_same (some old) conn local u v e = e

    send_to_same :
        (o : Option ℕ)
        → (u v : State) → result_of (send_to o fault p u) ≡ result_of (send_to o fault p v)
    send_to_same none u v = refl
    send_to_same (some c) u v = refl

    deliver_same :
        (u v : State)
        → u.conns ≡ v.conns
        → result_of (deliver fault p addr u) ≡ result_of (deliver fault p addr v)
    unfolding deliver
    deliver_same u v e =
        ap (λ m. result_of (send_to (get addr m) fault p u)) e ∙ send_to_same (get addr v.conns) u v

    dialed_same :
        (d : Dialed)
        → result_of (
            unless_failed is_ws_addr dial default fault p addr
              (handle_dialed is_ws_addr dial default addr d (with_dialer default t)))
          ≡ result_of (
              unless_failed is_ws_addr dial default fault p addr
                (handle_dialed is_ws_addr dial default addr d (with_dialer default s)))
    unfolding handle_ws_conn with_dialer
    dialed_same (refused e) = refl
    dialed_same (connected conn local) = deliver_same _ _ (
        ap (λ m. (stored (get addr m) conn local addr (with_dialer default t)).1.conns) same
        ∙ stored_same (get addr s.conns) conn local (with_dialer default t) (with_dialer default s)
            same)

    chosen_same :
        (c : Bool) (o : Option ℕ) (dials : Bool)
        → s.dailer ≡ t.dailer
        → s.username ≡ t.username
        → result_of (
            if c
            then (0, some conn_closed, t)
            else unless_failed is_ws_addr dial default fault p addr (
                unless_found is_ws_addr dial default o
                  (dial_if is_ws_addr dial default dials addr t)
                  t))
          ≡ result_of (
              if c
              then (0, some conn_closed, s)
              else unless_failed is_ws_addr dial default fault p addr (
                  unless_found is_ws_addr dial default o
                    (dial_if is_ws_addr dial default dials addr s)
                    s))
    chosen_same true o dials d u = refl
    chosen_same false (some c) dials d u = deliver_same t s same
    chosen_same false none false d u = refl
    chosen_same false none true d u =
        ap
          (λ (x : Dialed). result_of (
            unless_failed is_ws_addr dial default fault p addr
              (handle_dialed is_ws_addr dial default addr x (with_dialer default t))))
          (cc (d, u))
        ∙ dialed_same (dial s.username (timeout_of default s.dailer) addr)

  -- SetWriteDeadline has no influence on what WriteTo returns, whatever the deadline.
  pub write_deadline_ignored :
      (now deadline : ℕ) (fault : Option Err) (p : List ℕ) (addr : ℕ) (s : State)
      → result_of
          (write_to is_ws_addr dial default fault p addr (set_write_deadline now deadline s))
        ≡ result_of (write_to is_ws_addr dial default fault p addr s)
  unfolding write_to dial_addr set_write_deadline
  write_deadline_ignored now deadline fault p addr s = elim (Bool-cases (leb deadline now)) [
    | inl e ↦ rw e (
        chosen_same fault p addr s _ refl s.closed (get addr s.conns)
          (is_ws_addr addr && not (length s.username == 0)) refl refl)
    | inr e ↦ rw e (
        chosen_same fault p addr s _ refl s.closed (get addr s.conns)
          (is_ws_addr addr && not (length s.username == 0)) refl refl)
  ]
