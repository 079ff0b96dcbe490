-- ===== src/Manage/Starts/Failures.antt =====
-- clientlib/manageAccel.go: what the functions leave behind where they return an error.
use go_shadowsocks.Manage.Starts.Outcomes.{start_with-ok, running}
use go_shadowsocks.Manage.Stops.{stop_websocket_mpx}
use go_shadowsocks.Manage.Starts.{
  no_udp, listen_socks, listen_udp_socks, with_tcp, no_tcp, conn_count, map_client, new_mpx, renew,
  aim_tcp, start_with, set_verbose, start_tcp_udp, start_websocket_mpx,
}
use go_shadowsocks.Errors.{panic, ok, Result, err, Err}
use go_shadowsocks.Manage.{
  check_websocket, ws_connecter, udp_connecter, mpx_connecter, tcp_connecter, check_tcp_udp, ℤ,
  World, Package,
}
use go_shadowsocks.Client.{new_client, stop, Client}
use go_shadowsocks.Prelude.{
  ℕ, ◌≡◌, ◌≢◌, ◌⊎◌, inl, inr, refl, sym, ap, ◌∙◌, Bool, true, false, Option, none, some, List,
}

-- The TCP listener of the client that there is.
abbrev pub listener_of : Option Client → Option Bool
listener_of none = none
listener_of (some c) = c.listener

-- A start that returns the error `e`: nothing but `verbose` is changed; or the new client does not
-- listen; or it listens on TCP, although the start has failed.
abbrev pub StartFailed :
    (Package → Package)
    → Option Err
    → Result ℕ
    → Option Err
    → Result ℕ
    → Option Err
    → Package
    → Err
    → Package
    → Type 0
StartFailed first checked picked tcp resolved udp s e t =
    ((t ≡ first s) × ((checked ≡ some e) ⊎ (picked ≡ err e)))
    ⊎ ((tcp ≡ some e) × (listener_of t.client ≡ none))
    ⊎ (((resolved ≡ err e) ⊎ (udp ≡ some e)) × (listener_of t.client ≡ some true))

start_with-err :
    (first setup : Package → Package) (checked : Option Err) (picked : Result ℕ) (tcp : Option Err)
    (resolved : Result ℕ) (udp : Option Err) (connecter pc_connecter : ℕ) (s t : Package) (e : Err)
    (c : Client)
    → (setup (first s)).client ≡ some c
    → start_with first setup checked picked tcp resolved udp connecter pc_connecter s ≡ (err e, t)
    → StartFailed first checked picked tcp resolved udp s e t
start_with-err f g (some x) picked tcp resolved udp k p s t e c new h =
    inl (sym (ap (λ r. r.1) h), inl (cc h))
start_with-err f g none (err x) tcp resolved udp k p s t e c new h =
    inl (sym (ap (λ r. r.1) h), inr (cc h))
start_with-err f g none panic tcp resolved udp k p s t e c new h = absurd (cc h)
start_with-err f g none (ok ciph) (some x) resolved udp k p s t e c new h = inr (
    inl (
      cc h,
      ap (λ y. listener_of y.1.client) (sym h) ∙ ap (λ o. listener_of (map_client no_tcp o)) new,
    ))
start_with-err f g none (ok ciph) none (err x) udp k p s t e c new h = inr (
    inr (
      inl (cc h),
      ap (λ y. listener_of y.1.client) (sym h)
          ∙ ap (λ o. listener_of (map_client (with_tcp k ciph) o)) new,
    ))
start_with-err f g none (ok ciph) none panic udp k p s t e c new h = absurd (cc h)
start_with-err f g none (ok ciph) none (ok addr) (some x) k p s t e c new h = inr (
    inr (
      inr (cc h),
      ap (λ y. listener_of y.1.client) (sym h)
          ∙ ap (λ o. listener_of (map_client no_udp (map_client (with_tcp k ciph) o))) new,
    ))
start_with-err f g none (ok ciph) none (ok addr) none k p s t e c new h = absurd (cc h)

new_mpx_same : (a b : Option Err) → new_mpx a ≡ new_mpx b
new_mpx_same none none = refl
new_mpx_same none (some y) = refl
new_mpx_same (some x) none = refl
new_mpx_same (some x) (some y) = refl

module _ (w : World) (server : List ℕ) (port : ℤ) (method password : List ℕ) (local_port : ℤ)
    (verbose : Bool) where
  -- Where StartTCPUDP returns an error: it is that of the tests or of PickCipher, and then nothing but
  -- `verbose` is changed; or that of the TCP listener, and then the new client has none; or that of
  -- the resolver or of the UDP socket, and then the new client goes on listening on TCP.
  pub start_tcp_udp-err :
      (outbound_id : ℕ) (s t : Package) (e : Err)
      → start_tcp_udp w server port method password local_port verbose outbound_id s ≡ (err e, t)
      → StartFailed
          (set_verbose verbose)
          (check_tcp_udp server password port local_port)
          (w.pick method password)
          w.listen_tcp
          w.resolve
          w.listen_udp
          s
          e
          t
  unfolding start_tcp_udp
  start_tcp_udp-err outbound_id s t e h =
      start_with-err (set_verbose verbose) (λ x. aim_tcp server port (renew w.now outbound_id x)) _
        _ w.listen_tcp w.resolve w.listen_udp tcp_connecter udp_connecter s t e _ refl h

  -- Where ResetTCPUDP returns an error, the client keeps its ciphers and everything else; but where the
  -- server's address was not resolved, `tcpConnecter`, which the client's sessions dial with, already
  -- has the new server, so that they talk to it with the old cipher.
  abbrev pub ResetFailed : Package → Err → Package → Type 0
  ResetFailed s e t =
      (t.client ≡ s.client)
      × ((t.tcp_server ≡ s.tcp_server) ⊎ ((w.resolve ≡ err e) × (t.tcp_server ≡ (server, port))))

  -- The error of starting the mpx pool has no influence on what StartWebsocketMpx returns, or on the
  -- state that it leaves.
  pub mpx_start_ignored :
      (url username : List ℕ) (ws_addr : ℕ) (count : ℤ) (s : Package) (e : ℕ → Option Err)
      → start_websocket_mpx w server port method password local_port verbose url username ws_addr
          count s
        ≡ start_websocket_mpx
            (record w { mpx_start = e })
            server
            port
            method
            password
            local_port
            verbose
            url
            username
            ws_addr
            count
            s
  unfolding start_websocket_mpx
  mpx_start_ignored url username ws_addr count s e =
      ap
        (λ (f : Package → Package).
          start_with (set_verbose verbose) (λ x. f (renew w.now 0 x))
            (check_websocket server url username password port local_port) (w.pick method password)
            w.listen_tcp (ok ws_addr) w.listen_udp mpx_connecter ws_connecter s)
        (new_mpx_same (w.mpx_start (conn_count count)) (e (conn_count count)))

  -- Where StartWebsocketMpx returns no error, StopWebsocketMpx closes the client's two sockets and the
  -- pool, and returns an error all the same.
  pub start_websocket_mpx-stop :
      (url username : List ℕ) (ws_addr now : ℕ) (count : ℤ) (s t : Package)
      → start_websocket_mpx w server port method password local_port verbose url username ws_addr
          count s
        ≡ (ok tt, t)
      → (ciph : ℕ) × ((stop_websocket_mpx now t).1.client
          ≡ some (record (running 0 mpx_connecter ws_connecter ciph ws_addr s) {
            ctx_done = true;
            listener = some false;
            udp_pc = some false;
          }))
        × ((stop_websocket_mpx now t).1.mc ≡ some false)
        × ((stop_websocket_mpx now t).0 ≢ none)
  unfolding start_websocket_mpx stop_websocket_mpx stop new_client
  start_websocket_mpx-stop url username ws_addr now count s t h =
      let (ciph, addr, checked, picked, resolved, is) =
        start_with-ok (set_verbose verbose)
          (λ x. new_mpx (w.mpx_start (conn_count count)) (renew w.now 0 x)) _ _ w.listen_tcp
          (ok ws_addr) w.listen_udp mpx_connecter ws_connecter s t h in
      let is' =
        is
        ∙ ap
            (λ (f : Package → Package).
              (listen_udp_socks none addr ws_connecter ciph (
                (listen_socks none mpx_connecter ciph
                  (f (renew w.now 0 (set_verbose verbose s)))).1)).1)
            (new_mpx_same (w.mpx_start (conn_count count)) none) in
      let same : addr ≡ ws_addr = cc resolved in
      (
        ciph,
        ap (λ x. (stop_websocket_mpx now x).1.client) is'
            ∙ ap
                (λ a. some (record (running 0 mpx_connecter ws_connecter ciph a s) {
                  ctx_done = true;
                  listener = some false;
                  udp_pc = some false;
                }))
                same,
        ap (λ x. (stop_websocket_mpx now x).1.mc) is',
        λ n. cc n,
      )
