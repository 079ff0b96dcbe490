-- ===== src/Main/Ciphers.antt =====
-- main.go: the cipher of the goroutines.
use go_shadowsocks.Core.{Cipher, pick_cipher}
use go_shadowsocks.Errors.{ok}
use go_shadowsocks.Main.{Task, Flags, World}
use go_shadowsocks.Prelude.{ℕ, ◌≡◌, List, All}

-- Every task uses the cipher.
abbrev pub AllUse : (Cipher → Type 0) → List Task → Type 0
AllUse P = All (λ (t : Task). P t.1)

module _ (w : World) (f : Flags) (key : List ℕ) where
  -- The cipher that PickCipher makes of the flags and the key.
  abbrev pub FromFlags : Cipher → Type 0
  FromFlags c = pick_cipher w.crypto f.cipher key f.password ≡ ok c
