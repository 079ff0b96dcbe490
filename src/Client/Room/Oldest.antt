-- ===== src/Client/Room/Oldest.antt =====
-- Which connection clientlib/client.go closes to make room.
use go_shadowsocks.Errors.{Err}
use go_shadowsocks.Udp.Nat.{Table}
use go_shadowsocks.Client.Room.{seen, make_room, seen_after}
use go_shadowsocks.Prelude.{ℕ, ◌≤◌, ◌≡◌, refl, ap, Option, none, List, [], ◌∷◌, map, All}

-- The time of `b` is not after that of any entry.
abbrev pub IsOldest : ℕ × ℕ → Table → Type 0
IsOldest b = All (λ e. b.1 ≤ e.1)

-- Reads and Writes that end without an error leave `lastSeen` as it was, so however much was sent and
-- received on the connections, the one that is closed is the one that it would be had they been idle
-- since they were accepted.
abbrev pub Silent : List (ℕ × Option Err) → Type 0
Silent = All (λ e. e.1 ≡ none)

seen_after-Silent : (hs : List (ℕ × Option Err)) (t : ℕ) → Silent hs → seen_after hs t ≡ t
unfolding seen_after seen
seen_after-Silent [] t h = refl
seen_after-Silent ((now, e) ∷ hs) t h = rw h.0 (seen_after-Silent hs t h.1)

-- A connection: its key, the time it was accepted, and its Reads and Writes.
abbrev pub Session : Type 0
Session = ℕ × ℕ × List (ℕ × Option Err)

abbrev pub as_accepted : List Session → Table
as_accepted = map (λ (c : Session). (c.0, c.1))

abbrev pub as_seen : List Session → Table
as_seen = map (λ (c : Session). (c.0, seen_after c.2 c.1))

pub make_room-accepted :
    (cs : List Session)
    → All (λ (c : Session). Silent c.2) cs
    → make_room (as_seen cs) ≡ make_room (as_accepted cs)
make_room-accepted cs h = ap make_room (same cs h)
  where
    same : (cs : List Session) → All (λ (c : Session). Silent c.2) cs → as_seen cs ≡ as_accepted cs
    same [] h = refl
    same ((k, t, hs) ∷ cs) h = cc (seen_after-Silent hs t h.0, same cs h.1)
