-- ===== src/Socks/Handshake.antt =====
-- `Handshake` of socks/socks.go, on a connection to a SOCKS5 client.
pub mod Requests
use go_shadowsocks.Prelude.{
  ℕ, Bool, true, false, List, [], ◌∷◌, ◌++◌, Option, none, some, ◌==◌, if◌then◌else◌,
}
use go_shadowsocks.Errors.{Err, Result, ok, err, panic, M, ◌>>=◌, ◌>>◌, return, fail}
use go_shadowsocks.Io.{Source, read_full, Sink, write, Conn}
use go_shadowsocks.Socks.Text.{IpText}
use go_shadowsocks.Socks.Addr.{
  max_addr_len, read_addr_into, parse_addr, byte_at, err_command_not_supported, info_udp_associate,
}

-- Request commands.
abbrev pub cmd_connect : ℕ
cmd_connect = 1

abbrev pub cmd_udp_associate : ℕ
cmd_udp_associate = 3

-- A read from the connection and a write to it.
abbrev on_input : {A : Type 0} → Conn → Result A × Source → Result A × Conn
on_input c (r, s) = (r, record c { input = s })

abbrev pub recv : {A : Type 0} → M Source A → M Conn A
recv m c = on_input c (m c.input)

abbrev on_output : Conn → ℕ × Option Err × Sink → Result (Unit {0}) × Conn
on_output c (n, none, w) = (ok tt, record c { output = w })
on_output c (n, some e, w) = (err e, record c { output = w })

abbrev pub send : List ℕ → M Conn (Unit {0})
send b c = on_output c (write b c.output)

-- Any error of a write, given another name.
abbrev pub or_else : {A : Type 0} → Err → Result A × Conn → Result A × Conn
or_else e (ok a, c) = (ok a, c)
or_else e (err x, c) = (err e, c)
or_else e (panic, c) = (panic, c)

-- {5, 0}, and {5, 0, 0, 1, 0, 0, 0, 0, 0, 0}.
abbrev pub method_reply : List ℕ
method_reply = 5 ∷ 0 ∷ []

abbrev pub connect_reply : List ℕ
connect_reply = 5 ∷ 0 ∷ 0 ∷ 1 ∷ 0 ∷ 0 ∷ 0 ∷ 0 ∷ 0 ∷ 0 ∷ []

-- `append([]byte{5, 0, 0}, listenAddr...)`, where a nil address adds nothing.
abbrev pub associate_reply : Option (List ℕ) → List ℕ
associate_reply none = 5 ∷ 0 ∷ 0 ∷ []
associate_reply (some a) = 5 ∷ 0 ∷ 0 ∷ a

-- `udp_enabled` is the package variable UDPEnabled, `local` the text of the connection's LocalAddr.
module _ (t : IpText) (udp_enabled : Bool) (local : List ℕ) where
  pub associate : M Conn (List ℕ)
  associate c =
      if udp_enabled
      then ((do
        (λ s. or_else err_command_not_supported (send (associate_reply (parse_addr t local)) s))
        fail info_udp_associate)
          c)
      else (err err_command_not_supported, c)

  -- `switch cmd`.
  pub run_command : ℕ → List ℕ → M Conn (List ℕ)
  run_command cmd addr =
      if cmd == cmd_connect
      then (do send connect_reply; return addr)
      else if cmd == cmd_udp_associate
      then associate
      else fail err_command_not_supported

  -- An error stands for the error value; where it is `info_udp_associate` the source returns the
  -- address with it. `buf` has MaxAddrLen bytes, more than any number of methods.
  pub handshake : M Conn (List ℕ)
  handshake = do
    hello ← recv (read_full 2)
    methods ← recv (read_full (byte_at hello 1))
    send method_reply
    request ← recv (read_full 3)
    addr ← recv (read_addr_into read_full max_addr_len)
    run_command (byte_at request 1) addr
