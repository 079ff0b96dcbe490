-- ===== src/Client/Handled.antt =====
-- clientlib/client.go: what `handleConn` does with its lock and its two connections.
use go_shadowsocks.Socks.Addr.{split_addr}
use go_shadowsocks.Socks.Handshake.Requests.{handshake_request, talking, hello, answer}
use go_shadowsocks.Socks.Handshake.{handshake}
use go_shadowsocks.Io.{pending, Source, Conn}
use go_shadowsocks.Socks.Text.{IpText}
use go_shadowsocks.Tcp.Relay.{associate_wait}
use go_shadowsocks.Errors.{err, ok, panic, Result, Err}
use go_shadowsocks.Client.{
  transip_info, crashed, remote_closed, relayed, unlocked, locked, waited, wrote, dialed,
  if_configured, is_associate, Client, after_handshake, local_closed, connect, handle_conn, Net,
  Action,
}
use go_shadowsocks.Prelude.{
  not, ◌&&◌, ℕ, suc, ◌-◌, ◌≡◌, ◌≢◌, refl, ap, ◌∙◌, Bool, true, false, Bool-cases, Option, none,
  some, Option-cases, List, [], ◌∷◌, ◌++◌, arith, ltb, ◌==◌, if◌then◌else◌,
}

-- The readers of connResetRLock, and which of the two connections is open.
pub record Held : Type 0 where
  pub readers : ℕ
  pub local_open : Bool
  pub remote_open : Bool

-- What each action needs, and what it leaves; `none` is a misuse: RUnlock of an unlocked lock, a use
-- of the connecter or a write of the target without the lock, a use of a closed connection, a second
-- Close or a second connection.
abbrev pub act : Action → Held → Option Held
act locked h = some (record h { readers = suc h.readers })
act unlocked h = if h.readers == 0 then none else some (record h { readers = h.readers - 1 })
act (dialed good) h =
    if ltb 0 h.readers && not h.remote_open then some (record h { remote_open = good }) else none
act (wrote b) h = if ltb 0 h.readers && h.remote_open then some h else none
act relayed h = if h.local_open && h.remote_open then some h else none
act (waited n) h = if h.local_open then some h else none
act remote_closed h = if h.remote_open then some (record h { remote_open = false }) else none
act local_closed h = if h.local_open then some (record h { local_open = false }) else none
act crashed h = none

unfoldable pub acts : List Action → Held → Option Held
acts [] h = some h
acts (a ∷ rest) h = elim (act a h) [ none ↦ none | some later ↦ acts rest later ]

abbrev pub opened : ℕ → Held
opened n = record { readers = n; local_open = true; remote_open = false }

abbrev pub over : ℕ → Held
over n = record { readers = n; local_open = false; remote_open = false }

connect_lem :
    (e : Option Err) (id : ℕ) (net : Net) (tgt : List ℕ) (n : ℕ)
    → acts (connect e (some id) net tgt ++ local_closed ∷ []) (opened n) ≡ some (over n)
unfolding acts
connect_lem (some e) id net tgt n = ground arith
connect_lem none id net tgt n =
    ground (arith, Bool-cases (id == 0), Option-cases net.info_error, Option-cases net.target_error)

module _ (is_timeout : Err → Bool) where
  -- A session whose UDP association, if there is one, comes to an end.
  abbrev pub Ends : Net → Type 0
  Ends net = associate_wait is_timeout net.wait_errors ≢ none

  after_lem :
      (r : Result (List ℕ)) (id : ℕ) (net : Net) (n : ℕ)
      → r ≢ panic
      → Ends net
      → acts (after_handshake is_timeout r (some id) net) (opened n) ≡ some (over n)
  unfolding acts
  after_lem (ok tgt) id net n np h = connect_lem net.connect_error id net tgt n
  after_lem (err e) id net n np h = ground (
    arith,
    h,
    Bool-cases (is_associate e),
    Option-cases (associate_wait is_timeout net.wait_errors),
  )
  after_lem panic id net n np h = absurd (np refl)

  configured_lem :
      (connecter upgrade : Option ℕ) (as_one : List Action) (n : ℕ)
      → acts as_one (opened n) ≡ some (over n)
      → acts (if_configured connecter upgrade as_one) (opened n) ≡ some (over n)
  unfolding acts
  configured_lem none u as_one n h = refl
  configured_lem (some x) none as_one n h = refl
  configured_lem (some x) (some u) as_one n h = h

  -- On every path of a session that started with the client's connection open, `client` set and a
  -- handshake that does not panic, and whose UDP association, if any, ends: connResetRLock is locked
  -- and unlocked in pairs; the connecter is used and the target is written under it; no connection is
  -- used closed or closed twice; and in the end both are closed and the lock is held as often as
  -- before.
  pub handle_conn-acts :
      (t : IpText) (udp_enabled : Bool) (local : List ℕ) (c : Client) (id : ℕ) (net : Net)
      (lc : Conn) (n : ℕ)
      → (handshake t udp_enabled local lc).0 ≢ panic
      → Ends net
      → acts (handle_conn is_timeout t udp_enabled local c (some id) net lc) (opened n)
        ≡ some (over n)
  unfolding handle_conn
  handle_conn-acts t udp_enabled local c id net lc n np h =
      configured_lem c.connecter c.upgrade_conn _ n
        (after_lem (handshake t udp_enabled local lc).0 id net n np h)

  configured :
      (x y : Option ℕ) (a b : ℕ) (rest : List Action)
      → x ≡ some a
      → y ≡ some b
      → if_configured x y rest ≡ rest
  configured x y a b rest e e' = ground (arith, e, e')

  -- What is written in front of the target.
  abbrev pub info_part : ℕ → List Action
  info_part id = if id == 0 then [] else wrote (transip_info id) ∷ []

  no_errors :
      (id : ℕ) (net : Net) (tgt : List ℕ)
      → net.connect_error ≡ none
      → net.info_error ≡ none
      → net.target_error ≡ none
      → connect net.connect_error (some id) net tgt ++ local_closed ∷ []
        ≡ locked
          ∷ dialed true
          ∷ (info_part id ++ wrote tgt ∷ unlocked ∷ relayed ∷ remote_closed ∷ local_closed ∷ [])
  no_errors id net tgt c i w = ground (arith, c, i, w, Bool-cases (id == 0))

  module _ (t : IpText) (udp_enabled : Bool) (local : List ℕ) (c : Client) (id : ℕ)
      (net : Net) where
    -- A SOCKS client that sends a greeting with any methods and a CONNECT request for the address `a`
    -- to a configured Client over a network without errors is served: the server is sent the outbound
    -- id, if it is not 0, and then the address `a` alone, and the session is relayed.
    pub handle_conn-connect :
        (s : Source) (v w rsv : ℕ) (methods a rest : List ℕ) (connecter upgrade : ℕ)
        → pending s ≡ hello v methods w 1 rsv (a ++ rest)
        → split_addr (a ++ rest) ≡ some a
        → c.connecter ≡ some connecter
        → c.upgrade_conn ≡ some upgrade
        → net.connect_error ≡ none
        → net.info_error ≡ none
        → net.target_error ≡ none
        → handle_conn is_timeout t udp_enabled local c (some id) net (talking s [])
          ≡ locked
            ∷ dialed true
            ∷ (info_part id ++ wrote a ∷ unlocked ∷ relayed ∷ remote_closed ∷ local_closed ∷ [])
    unfolding handle_conn answer
    handle_conn-connect s v w rsv methods a rest connecter upgrade e h set uc ce ie te =
        let (s', shaken, left) =
          handshake_request t udp_enabled local s v w 1 rsv methods a rest [] e h in
        configured c.connecter c.upgrade_conn connecter upgrade _ set uc
        ∙ ap (λ r. after_handshake is_timeout r (some id) net) (ap (λ r. r.0) shaken)
        ∙ no_errors id net a ce ie te
