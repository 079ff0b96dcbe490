-- ===== src/Main.antt =====
-- main.go: from the flags to the goroutines that it starts. Base64, url.Parse and the random bytes
-- stand outside; the texts of the log are left out.
pub mod Tunnels
pub mod Ciphers
pub mod Runs
use go_shadowsocks.Prelude.{
  ◌||◌, map, ℕ, Bool, true, false, ◌&&◌, List, [], ◌∷◌, ◌++◌, Option, none, some, length, ascii,
  ltb, ◌==◌, if◌then◌else◌,
}
use go_shadowsocks.Errors.{Err, Result, ok, err, panic, map_result}
use go_shadowsocks.Core.{Cipher, Crypto, pick_cipher}
use go_shadowsocks.Strings.{split, has_prefix, halves}

-- `flags`; an empty text is a flag that is not given.
pub record Flags : Type 0 where
  pub client : List ℕ
  pub server : List ℕ
  pub cipher : List ℕ
  pub key : List ℕ
  pub password : List ℕ
  pub keygen : ℕ
  pub socks : List ℕ
  pub redir_tcp : List ℕ
  pub redir_tcp6 : List ℕ
  pub tcp_tun : List ℕ
  pub udp_tun : List ℕ
  pub udp_socks : Bool

-- url.URL: the host and the user information, with an empty password where none is set.
pub record Url : Type 0 where
  pub host : List ℕ
  pub user : Option (List ℕ × List ℕ)

pub record World : Type 0 where
  pub crypto : Crypto
  pub decode : List ℕ → Result (List ℕ)
  pub encode : List ℕ → List ℕ
  pub random : ℕ → List ℕ
  pub parse : List ℕ → Result Url

-- A goroutine, with its addresses; and its cipher.
pub data Service : Type 0 where
  udp_local : List ℕ → List ℕ → List ℕ → Service
  tcp_tunnel : List ℕ → List ℕ → List ℕ → Service
  socks_local : List ℕ → List ℕ → Service
  udp_socks_local : List ℕ → List ℕ → Service
  redir_local : List ℕ → List ℕ → Service
  redir6_local : List ℕ → List ℕ → Service
  udp_remote : List ℕ → Service
  tcp_remote : List ℕ → Service

abbrev pub Task : Type 0
Task = Service × Cipher

-- How `main` ends, or the goroutines that run, and socks.UDPEnabled, when it waits for a signal.
pub data Outcome : Type 0 where
  printed : List ℕ → Outcome
  usage : Outcome
  fatal : Err → Outcome
  panicked : Outcome
  serving : Bool → List Task → Outcome

abbrev pub given : List ℕ → Bool
given s = if length s == 0 then false else true

-- `parseURL`: the address, the cipher and the password.
abbrev pub of_user : List ℕ → Option (List ℕ × List ℕ) → List ℕ × List ℕ × List ℕ
of_user host none = (host, [], [])
of_user host (some (name, password)) = (host, name, password)

unfoldable pub parse_url : World → List ℕ → Result (List ℕ × List ℕ × List ℕ)
parse_url w s = map_result (λ (u : Url). of_user u.host u.user) (w.parse s)

-- `addr, cipher, password` of the client or the server mode.
unfoldable pub endpoint : World → Flags → List ℕ → Result (List ℕ × List ℕ × List ℕ)
endpoint w f addr =
    if has_prefix addr (ascii "ss://") then parse_url w addr else ok (addr, f.cipher, f.password)

-- The loops over the tunnels.
abbrev pub cons : {A : Type 0} → Result A → Result (List A) → Result (List A)
cons (ok a) (ok as_many) = ok (a ∷ as_many)
cons (ok a) (err e) = err e
cons (ok a) panic = panic
cons (err e) rest = err e
cons panic rest = panic

unfoldable pub tunnels : List (List ℕ) → Result (List (List ℕ × List ℕ))
tunnels [] = ok []
tunnels (tun ∷ rest) = cons (halves (split b'=' tun)) (tunnels rest)

unfoldable pub tunnels_of : List ℕ → Result (List (List ℕ × List ℕ))
tunnels_of flag = if given flag then tunnels (split b',' flag) else ok []

-- What the client mode starts, in order.
abbrev pub if_given : List ℕ → List Service → List Service
if_given flag ss = if given flag then ss else []

unfoldable pub client_services :
    Flags → List ℕ → List (List ℕ × List ℕ) → List (List ℕ × List ℕ) → List Service
client_services f addr udp tcp =
    map (λ p. udp_local p.0 addr p.1) udp
    ++ (map (λ p. tcp_tunnel p.0 addr p.1) tcp
        ++ (if_given f.socks (
              socks_local f.socks addr
              ∷ (if f.udp_socks then udp_socks_local f.socks addr ∷ [] else []))
            ++ (if_given f.redir_tcp (redir_local f.redir_tcp addr ∷ [])
                ++ if_given f.redir_tcp6 (redir6_local f.redir_tcp6 addr ∷ []))))

abbrev pub Mode : Type 0
Mode = Result (List Task)

abbrev pub with_tunnels :
    (List (List ℕ × List ℕ) → List (List ℕ × List ℕ) → List Task)
    → Result (List (List ℕ × List ℕ))
    → Result (List (List ℕ × List ℕ))
    → Mode
with_tunnels start (ok udp) (ok tcp) = ok (start udp tcp)
with_tunnels start (err e) tcp = err e
with_tunnels start panic tcp = panic
with_tunnels start (ok udp) (err e) = err e
with_tunnels start (ok udp) panic = panic

abbrev pub all_with : Cipher → List Service → List Task
all_with ciph = map (λ s. (s, ciph))

abbrev pub with_cipher : (Cipher → Mode) → Result Cipher → Mode
with_cipher start (ok ciph) = start ciph
with_cipher start (err e) = err e
with_cipher start panic = panic

abbrev pub at_endpoint :
    (List ℕ → List ℕ → List ℕ → Mode) → Result (List ℕ × List ℕ × List ℕ) → Mode
at_endpoint start (ok (addr, cipher, password)) = start addr cipher password
at_endpoint start (err e) = err e
at_endpoint start panic = panic

module _ (w : World) (f : Flags) where
  -- Client mode and server mode, with the key; and behind the choice of the address.
  abbrev pub client_with : List ℕ → List ℕ → List ℕ → List ℕ → Mode
  client_with key addr cipher password =
      with_cipher
        (λ ciph.
          with_tunnels (λ udp tcp. all_with ciph (client_services f addr udp tcp))
            (tunnels_of f.udp_tun) (tunnels_of f.tcp_tun))
        (pick_cipher w.crypto cipher key password)

  unfoldable pub client_mode : List ℕ → Mode
  client_mode key = at_endpoint (client_with key) (endpoint w f f.client)

  abbrev pub server_with : List ℕ → List ℕ → List ℕ → List ℕ → Mode
  server_with key addr cipher password =
      with_cipher (λ ciph. ok (all_with ciph (udp_remote addr ∷ tcp_remote addr ∷ [])))
        (pick_cipher w.crypto cipher key password)

  unfoldable pub server_mode : List ℕ → Mode
  server_mode key = at_endpoint (server_with key) (endpoint w f f.server)

  abbrev pub if_mode : List ℕ → Mode → Mode
  if_mode flag mode = if given flag then mode else ok []

  abbrev pub both : Mode → Mode → Outcome
  both (ok cs) (ok ss) = serving (given f.client && (given f.socks && f.udp_socks)) (cs ++ ss)
  both (err e) s = fatal e
  both panic s = panicked
  both (ok cs) (err e) = fatal e
  both (ok cs) panic = panicked

  -- `-key`, or no key.
  abbrev pub with_key : Result (List ℕ) → Outcome
  with_key (ok key) = both (if_mode f.client (client_mode key)) (if_mode f.server (server_mode key))
  with_key (err e) = fatal e
  with_key panic = panicked

  -- `main`.
  pub run_main : Outcome
  run_main =
      if ltb 0 f.keygen
      then printed (w.encode (w.random f.keygen))
      else if given f.client || given f.server
      then with_key (if given f.key then w.decode f.key else ok [])
      else usage
