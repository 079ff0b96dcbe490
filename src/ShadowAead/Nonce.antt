-- ===== src/ShadowAead/Nonce.antt =====
-- The counting nonce of shadowaead/stream.go.
pub mod Counter
use go_shadowsocks.Prelude.{ℕ, ◌+◌, ◌%◌, List, [], ◌∷◌, ◌==◌, if◌then◌else◌}

-- `increment`: the loop goes on to the next byte where a byte wraps to 0.
unfoldable pub increment : List ℕ → List ℕ
increment [] = []
increment (b ∷ bs) = let b' = (b + 1) % 256 in if b' == 0 then b' ∷ increment bs else b' ∷ bs
