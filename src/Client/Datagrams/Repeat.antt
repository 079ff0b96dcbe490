-- ===== src/Client/Datagrams/Repeat.antt =====
-- The UDP loop of clientlib/client.go serves a peer once, and in a format that udpRemote of the same
-- repository does not read.
use go_shadowsocks.Client.{transip_info}
use go_shadowsocks.Prelude.{zero, ◌/◌, ◌^◌, ◌%◌, drop, ◌+◌, ◌++◌, ◌-◌, length, take, ◌<◌, refl}
use go_shadowsocks.Udp.Relay.{udp_buf_size, split_off, remote_request}
use go_shadowsocks.Client.Datagrams.{
  lock, then_serve, unlock, turn_as, State, turn, serve, client_request,
}
use go_shadowsocks.Prelude.{
  ◌∙◌, ◌==◌, Bool-cases, arith, suc, true, ap, [], none, ◌∷◌, some, map, All, ◌≡◌, Bool, ◌≢◌, List,
  ℕ,
}
use go_shadowsocks.Socks.Addr.{addr_len, split_addr}
use go_shadowsocks.Udp.Nat.{Table, get, put, del}

-- What is written for datagrams that each get a new socket.
abbrev pub requests : ℕ → ℕ → List (ℕ × List ℕ) → List (ℕ × List ℕ)
requests id pc [] = []
requests id pc ((peer, d) ∷ rest) = (pc, client_request id d) ∷ requests id (suc pc) rest

-- Datagrams for whose peers dialing succeeds.
abbrev pub dialing : List (ℕ × List ℕ) → List (ℕ × Bool × List ℕ)
dialing = map (λ x. (x.0, true, x.1))

-- The peers are new to the table and different.
abbrev pub New : Table → List (ℕ × List ℕ) → Type 0
New m [] = Unit {0}
New m ((peer, d) ∷ rest) = (get peer m ≡ none) × All (λ x. x.0 ≢ peer) rest × New m rest

get-put-other :
    (key other pc : ℕ) (m : Table)
    → other ≢ key
    → get other m ≡ none
    → get other (put key pc m) ≡ none
unfolding get put del
get-put-other key other pc [] ne e = ground (arith, ne)
get-put-other key other pc ((k, p) ∷ m) ne e =
    ground (
      arith,
      ne,
      e,
      get-put-other key other pc m ne,
      Bool-cases (k == other),
      Bool-cases (k == key),
    )

New-put :
    (key pc : ℕ) (m : Table) (ds : List (ℕ × List ℕ))
    → All (λ x. x.0 ≢ key) ds
    → New m ds
    → New (put key pc m) ds
New-put key pc m [] other n = tt
New-put key pc m ((peer, d) ∷ ds) other (e, apart, n) =
    (get-put-other key peer pc m other.0 e, apart, New-put key pc m ds other.1 n)

unlock-lock : (s : State) → unlock (lock s) ≡ some s
unlock-lock s = ground arith

turn_new :
    (id peer : ℕ) (d : List ℕ) (s : State)
    → get peer s.table ≡ none
    → turn id peer true d s ≡ (
      some (s.fresh, client_request id d),
      some (record s { table = put peer s.fresh s.table; fresh = suc s.fresh }),
    )
unfolding turn
turn_new id peer d s e =
    ap (λ o. turn_as o true id peer d s) e
    ∙ ap (λ x. (some (s.fresh, client_request id d), x))
        (unlock-lock (record s { table = put peer s.fresh s.table; fresh = suc s.fresh }))

turn_known :
    (id peer pc : ℕ) (dials : Bool) (d : List ℕ) (s : State)
    → get peer s.table ≡ some pc
    → s.readers ≡ 0
    → turn id peer dials d s ≡ (some (pc, client_request id d), none)
unfolding turn
turn_known id peer pc dials d s e r =
    ap (λ o. turn_as o dials id peer d s) e
    ∙ ap (λ x. (some (pc, client_request id d), x)) (ground (arith, r))

get-put : (key pc : ℕ) (m : Table) → get key (put key pc m) ≡ some pc
unfolding get put
get-put key pc m = ground arith

-- The loop, with pcResetRLock free, serves datagrams of different peers that are new to its table,
-- each through a socket of its own, and goes on; but a further datagram of the first of them, while
-- its entry stands, is written and then stops the program, and nothing behind it is served.
pub serve_once :
    (id : ℕ) (ds : List (ℕ × List ℕ)) (s : State)
    → s.readers ≡ 0
    → New s.table ds
    → (t : State) × (serve id (dialing ds) s ≡ (requests id s.fresh ds, some t)) × (t.readers ≡ 0)
unfolding serve
serve_once id [] s r n = (s, refl, r)
serve_once id ((peer, d) ∷ ds) s r (e, apart, n) =
    let next = record s { table = put peer s.fresh s.table; fresh = suc s.fresh } in
    let (t, rest, free) = serve_once id ds next r (New-put peer s.fresh s.table ds apart n) in
    (
      t,
      ap (λ x. then_serve x (serve id (dialing ds))) (turn_new id peer d s e)
          ∙ ap (λ r. ((s.fresh, client_request id d) ∷ r.0, r.1)) rest,
      free,
    )

pub serve_twice :
    (id peer : ℕ) (d d' : List ℕ) (dials : Bool) (rest : List (ℕ × Bool × List ℕ)) (s : State)
    → s.readers ≡ 0
    → get peer s.table ≡ none
    → serve id ((peer, true, d) ∷ (peer, dials, d') ∷ rest) s
      ≡ ((s.fresh, client_request id d) ∷ (s.fresh, client_request id d') ∷ [], none)
unfolding serve
serve_twice id peer d d' dials rest s r e =
    let next = record s { table = put peer s.fresh s.table; fresh = suc s.fresh } in
    ap (λ x. then_serve x (serve id ((peer, dials, d') ∷ rest))) (turn_new id peer d s e)
    ∙ ap
        (λ x. (
          (s.fresh, client_request id d) ∷ (then_serve x (serve id rest)).0,
          (then_serve x (serve id rest)).1,
        ))
        (turn_known id peer s.fresh dials d' next (get-put peer s.fresh s.table) r)

split_zero : (xs : List ℕ) → split_addr (0 ∷ xs) ≡ none
unfolding split_addr addr_len
split_zero xs = ground arith

take_first : (n x : ℕ) (xs : List ℕ) → 0 < n → take n (x ∷ xs) ≡ x ∷ take (n - 1) xs
take_first zero x xs h = absurd (omega (arith, h))
take_first (suc n) x xs h = ap (λ k. x ∷ take k xs) (omega arith)

skipped :
    (room n id : ℕ) (rest : List ℕ)
    → 0 < room
    → 0 < n
    → id < 256
    → (let b = take room (take n (transip_info id ++ rest)) in split_off b (split_addr b)) ≡ none
skipped room n id rest h h' small =
    let zero_first : id % 2 ^ 16 / 256 ≡ 0 = omega (arith, small) in
    let ys = take (n - 1) (id % 256 ∷ 0 ∷ 0 ∷ rest) in
    rw
      (
        zero_first,
        take_first n 0 (id % 256 ∷ 0 ∷ 0 ∷ rest) h',
        take_first room 0 ys h,
        split_zero (take (room - 1) ys),
      )
      refl

-- With an outbound id below 256, also 0, the first byte of every datagram that the loop writes is 0,
-- which is no address type: udpRemote of the repository skips it.
pub client_request-remote_request :
    (id : ℕ) (d : List ℕ) → id < 256 → remote_request (client_request id d) ≡ none
unfolding client_request remote_request
client_request-remote_request id d small =
    skipped udp_buf_size (length (take (udp_buf_size - 1) d) + 1) id
      (drop 3 (take (udp_buf_size - 1) d)) (omega arith) (omega arith) small
