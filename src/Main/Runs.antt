-- ===== src/Main/Runs.antt =====
-- main.go at concrete flags.
use go_shadowsocks.Main.Tunnels.{tunnels-missing}
use go_shadowsocks.Errors.{ok, panic}
use go_shadowsocks.Core.{dummy}
use go_shadowsocks.Core.Runs.{toy_crypto}
use go_shadowsocks.Main.{
  udp_socks_local, socks_local, tcp_tunnel, all_with, Task, Flags, tunnels, World,
}
use go_shadowsocks.Prelude.{ascii, ◌≡◌, true, none, List, [], ◌∷◌, arith}

abbrev toy_world : World
toy_world = record {
  crypto = toy_crypto;
  decode = λ s. ok s;
  encode = λ s. s;
  random = λ n. [];
  parse = λ s. ok (record { host = s; user = none });
}

abbrev flags : Flags
flags = record {
  client = ascii "h:1";
  server = [];
  cipher = ascii "dummy";
  key = [];
  password = ascii "pw";
  keygen = 0;
  socks = ascii ":2";
  redir_tcp = [];
  redir_tcp6 = [];
  tcp_tun = ascii ":3=t:4";
  udp_tun = [];
  udp_socks = true;
}

abbrev expected : List Task
expected = all_with dummy (
    tcp_tunnel (ascii ":3") (ascii "h:1") (ascii "t:4")
    ∷ socks_local (ascii ":2") (ascii "h:1")
    ∷ udp_socks_local (ascii ":2") (ascii "h:1")
    ∷ [])

tunnels-missing_example : tunnels (ascii "a=b" ∷ ascii "c" ∷ []) ≡ panic
tunnels-missing_example =
    tunnels-missing (ascii "a=b" ∷ []) (ascii "c") [] ((λ e. absurd (omega (arith, e))), tt)
