-- ===== src/Socks/Text/To4.antt =====
-- net.IP.To4 on 4-byte and 16-byte addresses.
use go_shadowsocks.Prelude.{ℕ, ◌≡◌, List, ◌++◌, some, length, length-drop, arith}
use go_shadowsocks.Socks.Text.{to4, same_bytes, v4_prefix}

pub to4-length : (ip ip4 : List ℕ) → to4 ip ≡ some ip4 → length ip4 ≡ 4
unfolding to4
to4-length ip ip4 e = ground (arith, length-drop 12 ip)

pub to4-v4_prefix : (ip : List ℕ) → length ip ≡ 4 → to4 (v4_prefix ++ ip) ≡ some ip
unfolding to4 same_bytes
to4-v4_prefix ip h = ground (arith, h)
