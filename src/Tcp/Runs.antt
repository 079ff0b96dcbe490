-- ===== src/Tcp/Runs.antt =====
-- A tunnel of tcp.go at concrete inputs: a client that sends three bytes to the target "ab:80".
use go_shadowsocks.Tcp.Sessions.{local_session}
use go_shadowsocks.Tcp.Sessions.Closed.{local_session-acts, all_closed, accepted, acts}
use go_shadowsocks.Tcp.Relay.Progress.{relay_returns}
use go_shadowsocks.Tcp.Relay.{
  returned, main_left, other_left, main_right, other_right, other_copied, main_copied,
  associate_wait, relay_start, woken,
}
use go_shadowsocks.Tcp.Relay
use go_shadowsocks.Prelude.{
  false, inl, inr, ◌==◌, Bool, true, Option, ℕ, ◌≡◌, refl, List, [], ◌∷◌, ◌++◌, none, some,
  append-nil, arith,
}
use go_shadowsocks.Errors.{socks, err, env, Err, eof, ok}
use go_shadowsocks.Io.{chunk, closed}
use go_shadowsocks.Socks.Addr.{split_addr, addr_len}
use go_shadowsocks.Socks.Runs.{host_addr}
use go_shadowsocks.ShadowAead.Aead.{toy_aead}
use go_shadowsocks.ShadowAead.Stream.Encode.{frames, past, faultless}
use go_shadowsocks.ShadowAead.Stream.Mask.{default_mask, default_mask-IsMask}
use go_shadowsocks.ShadowAead.Conn.{ReadSide, WriteSide, opened_out}
use go_shadowsocks.ShadowAead.Conn.RoundTrip.{wire, Sent}
use go_shadowsocks.ShadowAead.Runs.{toy_cipher, toy_cipher-IsCipher, salt, payload, zeros, empty}
use go_shadowsocks.Tcp.{local_end, remote_end}
use go_shadowsocks.Tcp.Tunnel.{local_end-Sent, remote_end-Sent}

local_end-Sent_example :
    (side : WriteSide) × (local_end toy_cipher default_mask
        (chunk salt (closed eof))
        host_addr
        (chunk payload (closed eof))
        empty
      ≡ some (none, side, closed eof))
    × Sent default_mask toy_cipher side (host_addr ++ payload)
local_end-Sent_example =
    local_end-Sent toy_cipher toy_cipher-IsCipher default_mask default_mask-IsMask
      (chunk salt (closed eof)) (chunk payload (closed eof)) toy_aead host_addr (omega arith) refl

-- What the local end has sent.
abbrev sent_chunks : List (List ℕ)
sent_chunks = host_addr ∷ payload ∷ []

abbrev side : WriteSide
side =
    opened_out toy_aead
      (faultless (salt ++ frames toy_aead zeros sent_chunks) (past zeros sent_chunks))

side-Sent : Sent default_mask toy_cipher side (host_addr ++ payload)
side-Sent = record {
  aead = toy_aead;
  salt = salt;
  chunks = sent_chunks;
  salted = refl;
  keyed = refl;
  are_chunks = ((omega arith, omega arith), ((omega arith, omega arith), tt));
  total = refl;
  state = refl;
}

host_addr_whole : split_addr host_addr ≡ some host_addr
unfolding split_addr addr_len
host_addr_whole = refl

remote_end-Sent_example :
    (side' : ReadSide) × (remote_end toy_cipher default_mask
        (λ t. ok empty)
        (chunk (wire side) (closed eof))
      ≡ ok (host_addr, some (3, none, side', record { sent = payload; faults = [] })))
remote_end-Sent_example =
    remote_end-Sent toy_cipher toy_cipher-IsCipher default_mask default_mask-IsMask (λ t. ok empty)
      side host_addr payload (chunk (wire side) (closed eof)) (omega arith) host_addr_whole
      side-Sent (append-nil (wire side)) refl refl

-- relay, where the client's side ends first.
abbrev Never : ℕ → Option Err → Type 0
Never n e = ⊥

abbrev FiveBytes : ℕ → Option Err → Type 0
FiveBytes n e = (n ≡ 5) × (e ≡ none)

abbrev main_over : Relay.State
main_over = record relay_start { main = woken 5 none; left_past = true; right_past = true }

abbrev both_over : Relay.State
both_over = record main_over { other = woken 3 (some (env 1)) }

abbrev main_run : Relay.Steps FiveBytes Never relay_start main_over
main_run =
    Relay.and_then _ main_over
      (Relay.and_then _ _
        (Relay.and_then relay_start _ Relay.here
          (main_copied relay_start 5 none refl (inl (refl, refl))))
        (main_right _ 5 none refl))
      (main_left _ 5 none refl)

abbrev relay_done : Relay.State
relay_done = record both_over { result = some (5, 3, some (env 1)) }

abbrev relay_run : Relay.Steps FiveBytes Never relay_start relay_done
relay_run =
    Relay.and_then both_over relay_done
      (Relay.and_then _ both_over
        (Relay.and_then _ _
          (Relay.and_then main_over _ main_run
            (other_copied main_over 3 (some (env 1)) refl (inr (refl, refl))))
          (other_right _ 3 (some (env 1)) refl))
        (other_left _ 3 (some (env 1)) refl))
      (returned both_over 5 3 none (some (env 1)) refl refl refl)

relay_returns_example :
    (t : Relay.State) × Relay.Steps FiveBytes Never main_over t
    × (r : ℕ × ℕ × Option Err) × (t.result ≡ some r)
relay_returns_example =
    relay_returns FiveBytes Never main_over main_run refl (inl (λ c. absurd (cc c)))

abbrev is_env_1 : Err → Bool
is_env_1 (env n) = n == 1
is_env_1 _ = false

local_session-acts_example :
    acts (local_session is_env_1 (err (socks 9)) none none (some (env 1) ∷ none ∷ [])) accepted
    ≡ some all_closed
unfolding associate_wait
local_session-acts_example =
    local_session-acts is_env_1 (err (socks 9)) none none (some (env 1) ∷ none ∷ []) (λ p. cc p)
      (λ e. cc e)
