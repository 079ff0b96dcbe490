-- ===== src/Strings.antt =====
-- The functions of Go's package strings that main.go and clientlib call, on texts as lists of bytes.
use go_shadowsocks.Errors.{panic, ok, Result}
use go_shadowsocks.Prelude.{ℕ, Bool, true, false, List, [], ◌∷◌, ◌==◌, if◌then◌else◌}

-- strings.Split(s, sep) for a separator of one byte: at least one part.
abbrev pub in_front : ℕ → List (List ℕ) → List (List ℕ)
in_front c [] = (c ∷ []) ∷ []
in_front c (p ∷ ps) = (c ∷ p) ∷ ps

unfoldable pub split : ℕ → List ℕ → List (List ℕ)
split sep [] = [] ∷ []
split sep (c ∷ cs) = if c == sep then [] ∷ split sep cs else in_front c (split sep cs)

-- strings.HasPrefix.
unfoldable pub has_prefix : List ℕ → List ℕ → Bool
has_prefix s [] = true
has_prefix [] (p ∷ ps) = false
has_prefix (c ∷ cs) (p ∷ ps) = if c == p then has_prefix cs ps else false

-- `p[0]` and `p[1]` of a split text, which panics where there is no second part.
abbrev pub halves : List (List ℕ) → Result (List ℕ × List ℕ)
halves (l ∷ r ∷ rest) = ok (l, r)
halves p = panic
