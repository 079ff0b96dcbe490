-- ===== src/ShadowAead/Stream/Mask.antt =====
-- Which settings of payloadSizeMask (shadowaead/var.go) the record layer can work with.
use Prim.Native.Nat.{bit_and}
use go_shadowsocks.Prelude.{ℕ, ◌≡◌, refl, true, ◌==◌, ==_iff, holds_below, holds_below-at, arith}
use go_shadowsocks.ShadowAead.Stream.Decode.{IsMask}

abbrev pub default_mask : ℕ
default_mask = 0x3fff

default_table : holds_below (λ n. bit_and n default_mask == n) 16384 ≡ true
unfolding holds_below
default_table = refl

pub default_mask-IsMask : IsMask default_mask
default_mask-IsMask = record {
  wide = omega arith;
  narrow = omega arith;
  keeps = λ n h. (==_iff _ n).0 (holds_below-at _ 16384 n (omega arith) default_table);
}
