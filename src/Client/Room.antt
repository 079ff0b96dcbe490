-- ===== src/Client/Room.antt =====
-- clientlib/client.go and clientlib/conn.go: the limit of MaxConnCount connections. The connections
-- of ConnMap, each with its key and `lastSeen`, in the order in which Range visits them.
pub mod Oldest
use go_shadowsocks.Errors.{Err}
use go_shadowsocks.Prelude.{ltb, if◌then◌else◌, [], some, ◌∷◌, none, ℕ, Option, List}
use go_shadowsocks.Udp.Nat.{Table, del}

-- A Read or Write of a `connLastSeen` that ends at the time `now` with the error `e`.
pub seen : ℕ → Option Err → ℕ → ℕ
seen now none t = t
seen now (some e) t = now

-- `lastSeen` after Reads and Writes, the latest at the end.
pub seen_after : List (ℕ × Option Err) → ℕ → ℕ
seen_after [] t = t
seen_after ((now, e) ∷ rest) t = seen_after rest (seen now e t)

-- The function given to Range, and the walk over the map.
abbrev pub older : Option (ℕ × ℕ) → ℕ × ℕ → Option (ℕ × ℕ)
older none e = some e
older (some (k, t)) (k', t') = if ltb t' t then some (k', t') else some (k, t)

unfoldable pub oldest_from : Option (ℕ × ℕ) → Table → Option (ℕ × ℕ)
oldest_from best [] = best
oldest_from best (e ∷ m) = oldest_from (older best e) m

-- The goroutine that makes room: the key of the connection that it closes, and the map.
abbrev pub evicted : Option (ℕ × ℕ) → Table → Option ℕ × Table
evicted none m = (none, m)
evicted (some (k, t)) m = (some k, (del k m).1)

unfoldable pub make_room : Table → Option ℕ × Table
make_room m = evicted (oldest_from none m) m
