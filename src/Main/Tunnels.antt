-- ===== src/Main/Tunnels.antt =====
-- main.go: the flags -udptun and -tcptun.
use go_shadowsocks.Errors.{ok, panic}
use go_shadowsocks.Main.{cons, tunnels_of, given, tunnels}
use go_shadowsocks.Strings.{halves, split}
use go_shadowsocks.Prelude.{All-append, ℕ, ◌≡◌, ◌≢◌, refl, true, List, [], ◌∷◌, ◌++◌, All, arith}

-- No byte is the separator.
abbrev pub Without : ℕ → List ℕ → Type 0
Without sep = All (λ c. c ≢ sep)

pub split-Without : (sep : ℕ) (x : List ℕ) → Without sep x → split sep x ≡ x ∷ []
unfolding split
split-Without sep [] h = refl
split-Without sep (c ∷ x) h = ground (arith, h.0, split-Without sep x h.1)

pub split-part :
    (sep : ℕ) (x rest : List ℕ) → Without sep x → split sep (x ++ sep ∷ rest) ≡ x ∷ split sep rest
unfolding split
split-part sep [] rest h = ground arith
split-part sep (c ∷ x) rest h = ground (arith, h.0, split-part sep x rest h.1)

-- `laddr=raddr`, and several of them with commas between.
abbrev pub tunnel_text : List ℕ × List ℕ → List ℕ
tunnel_text (l, r) = l ++ b'=' ∷ r

abbrev pub tunnel_texts : List ℕ × List ℕ → List (List ℕ × List ℕ) → List ℕ
tunnel_texts t [] = tunnel_text t
tunnel_texts t (u ∷ us) = tunnel_text t ++ b',' ∷ tunnel_texts u us

-- Addresses with neither of the two separators.
abbrev pub Plain : List ℕ × List ℕ → Type 0
Plain (l, r) = Without b'=' l × Without b'=' r × Without b',' l × Without b',' r

halves_lem :
    (l r : List ℕ)
    → Without b'=' l
    → Without b'=' r
    → halves (split b'=' (l ++ b'=' ∷ r)) ≡ ok (l, r)
halves_lem l r hl hr = rw (split-part b'=' l r hl, split-Without b'=' r hr) refl

comma_free : (l r : List ℕ) → Without b',' l → Without b',' r → Without b',' (l ++ b'=' ∷ r)
comma_free l r hl hr =
    All-append (λ c. c ≢ b',') l (b'=' ∷ r) hl ((λ e. absurd (omega (arith, e))), hr)

texts_lem :
    (t : List ℕ × List ℕ) (us : List (List ℕ × List ℕ))
    → Plain t
    → All Plain us
    → tunnels (split b',' (tunnel_texts t us)) ≡ ok (t ∷ us)
unfolding tunnels
texts_lem (l, r) [] (el, er, cl, cr) h =
    rw (split-Without b',' (l ++ b'=' ∷ r) (comma_free l r cl cr), halves_lem l r el er) refl
texts_lem (l, r) (u ∷ us) (el, er, cl, cr) h =
    rw
      (
        split-part b',' (l ++ b'=' ∷ r) (tunnel_texts u us) (comma_free l r cl cr),
        halves_lem l r el er,
        texts_lem u us h.0 h.1,
      )
      refl

text_given : (t : List ℕ × List ℕ) (us : List (List ℕ × List ℕ)) → given (tunnel_texts t us) ≡ true
text_given ([], r) [] = ground arith
text_given (c ∷ l, r) [] = ground arith
text_given ([], r) (u ∷ us) = ground arith
text_given (c ∷ l, r) (u ∷ us) = ground arith

-- The loops over -udptun and -tcptun read every list of pairs of addresses that is written
-- laddr1=raddr1,laddr2=raddr2,… and has neither separator in an address.
pub tunnels_of-tunnel_texts :
    (t : List ℕ × List ℕ) (us : List (List ℕ × List ℕ))
    → Plain t
    → All Plain us
    → tunnels_of (tunnel_texts t us) ≡ ok (t ∷ us)
unfolding tunnels_of
tunnels_of-tunnel_texts t us p h = rw (text_given t us) (texts_lem t us p h)

halves_missing : (p : List ℕ) → Without b'=' p → halves (split b'=' p) ≡ panic
halves_missing p h = rw (split-Without b'=' p h) refl

-- A part without `=` makes the loop panic, whatever the other parts are, where these do not fail.
pub tunnels-missing :
    (b : List (List ℕ)) (p : List ℕ) (a : List (List ℕ))
    → Without b'=' p
    → tunnels (b ++ p ∷ a) ≡ panic
unfolding tunnels
tunnels-missing [] p a h = rw (halves_missing p h) refl
tunnels-missing (x ∷ b) p a h = rw (tunnels-missing b p a h) (cons_panic (split b'=' x))
  where
    cons_panic : (ps : List (List ℕ)) → cons (halves ps) panic ≡ panic
    cons_panic [] = refl
    cons_panic (l ∷ []) = refl
    cons_panic (l ∷ r ∷ rest) = refl
