-- ===== src/Socks/Handshake/Requests.antt =====
-- What `Handshake` of socks/socks.go answers to a client that speaks SOCKS5.
use go_shadowsocks.Prelude.{
  append-nil, ℕ, ◌≡◌, refl, ◌∙◌, Bool, List, [], ◌∷◌, ◌++◌, none, some, length, drop-append,
  length-append, append_assoc, ◌==◌, if◌then◌else◌, arith,
}
use go_shadowsocks.Errors.{Err, Result, ok, err, ◌>>=◌}
use go_shadowsocks.Io.{Source, pending, ending, read_full, Conn}
use go_shadowsocks.Io.ReadFull.{read_full_enough}
use go_shadowsocks.Socks.Text.{IpText}
use go_shadowsocks.Socks.Addr.{
  split_addr, read_addr_into, parse_addr, err_command_not_supported, info_udp_associate,
}
use go_shadowsocks.Socks.Addr.Read.{read_addr_into-max, read_addr_into-none}
use go_shadowsocks.Socks.Handshake.{
  recv, method_reply, connect_reply, associate_reply, associate, run_command, handshake,
}

-- A connection to a client that takes every reply.
abbrev pub talking : Source → List ℕ → Conn
talking s out = record { input = s; output = record { sent = out; faults = [] } }

-- VER, NMETHODS, METHODS, and VER, CMD, RSV, in front of the address.
abbrev pub hello : ℕ → List ℕ → ℕ → ℕ → ℕ → List ℕ → List ℕ
hello v methods w cmd rsv rest = v ∷ length methods ∷ (methods ++ w ∷ cmd ∷ rsv ∷ rest)

module _ (t : IpText) (udp_enabled : Bool) (local : List ℕ) where
  -- The answer to each command, and what is written behind the method reply.
  unfoldable pub answer : ℕ → List ℕ → Result (List ℕ)
  answer cmd a =
      if cmd == 1
      then ok a
      else if cmd == 3
      then (if udp_enabled then err info_udp_associate else err err_command_not_supported)
      else err err_command_not_supported

  pub reply : ℕ → List ℕ
  reply cmd =
      if cmd == 1
      then connect_reply
      else if cmd == 3
      then (if udp_enabled then associate_reply (parse_addr t local) else [])
      else []

  run_command_lem :
      (cmd : ℕ) (a : List ℕ) (s : Source) (out : List ℕ)
      → run_command t udp_enabled local cmd a (talking s out)
        ≡ (answer cmd a, talking s (out ++ reply cmd))
  unfolding run_command associate answer reply
  run_command_lem cmd a s out = ground (arith, append-nil out)

  -- The three reads in front of the address, and the method reply between them.
  greeting :
      (s : Source) (v w cmd rsv : ℕ) (methods rest out : List ℕ)
      → pending s ≡ hello v methods w cmd rsv rest
      → (s' : Source) × (handshake t udp_enabled local (talking s out)
          ≡ (do
            addr ← recv (read_addr_into read_full 259)
            run_command t udp_enabled local cmd addr)
              (talking s' (out ++ method_reply)))
        × (pending s' ≡ rest)
        × (ending s' ≡ ending s)
  unfolding handshake
  greeting s v w cmd rsv methods rest out e =
      let (got₁, left₁, end₁) = read_full_enough 2 s (rw e (omega arith)) in
      let s₁ = (read_full 2 s).1 in
      let came₁ : pending s₁ ≡ methods ++ w ∷ cmd ∷ rsv ∷ rest = left₁ ∙ rw e in
      let (got₂, left₂, end₂) =
        read_full_enough (length methods) s₁
          (rw came₁ (omega (arith, length-append methods (w ∷ cmd ∷ rsv ∷ rest)))) in
      let s₂ = (read_full (length methods) s₁).1 in
      let came₂ : pending s₂ ≡ w ∷ cmd ∷ rsv ∷ rest =
        left₂ ∙ rw came₁ (drop-append methods (w ∷ cmd ∷ rsv ∷ rest) _ refl) in
      let (got₃, left₃, end₃) = read_full_enough 3 s₂ (rw came₂ (omega arith)) in
      (
        (read_full 3 s₂).1,
        ground (arith, got₁, e, got₂, got₃, came₂),
        left₃ ∙ rw came₂,
        end₃ ∙ end₂ ∙ end₁,
      )

  -- A client that sends a greeting with any methods and a request for the address `a` is sent the
  -- method reply and the reply to its command, is given the answer to its command, and the bytes
  -- behind the request stay to be read.
  pub handshake_request :
      (s : Source) (v w cmd rsv : ℕ) (methods a rest out : List ℕ)
      → pending s ≡ hello v methods w cmd rsv (a ++ rest)
      → split_addr (a ++ rest) ≡ some a
      → (s' : Source) × (handshake t udp_enabled local (talking s out)
          ≡ (answer cmd a, talking s' (out ++ method_reply ++ reply cmd)))
        × (pending s' ≡ rest)
  handshake_request s v w cmd rsv methods a rest out e h =
      let (s', step, came, _) = greeting s v w cmd rsv methods (a ++ rest) out e in
      let (got, left, _) = read_addr_into-max s' a rest came h in
      let s₂ = (read_addr_into read_full 259 s').1 in
      (
        s₂,
        ground (
          arith,
          step,
          got,
          run_command_lem cmd a s₂ (out ++ method_reply),
          append_assoc out method_reply (reply cmd),
        ),
        left,
      )

  -- Where the bytes behind the request header are no address, the handshake fails, and the client is
  -- sent the method reply and nothing more.
  pub handshake_no_addr :
      (s : Source) (v w cmd rsv : ℕ) (methods rest out : List ℕ)
      → pending s ≡ hello v methods w cmd rsv rest
      → split_addr rest ≡ none
      → (s' : Source) × (e : Err) × (handshake t udp_enabled local (talking s out)
          ≡ (err e, talking s' (out ++ method_reply)))
  handshake_no_addr s v w cmd rsv methods rest out e h =
      let (s', step, came, _) = greeting s v w cmd rsv methods rest out e in
      let (x, got) = read_addr_into-none s' (rw came h) in
      ((read_addr_into read_full 259 s').1, x, ground (arith, step, got))
