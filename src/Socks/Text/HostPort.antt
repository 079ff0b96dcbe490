-- ===== src/Socks/Text/HostPort.antt =====
-- net.SplitHostPort undoes net.JoinHostPort.
use go_shadowsocks.Prelude.{
  ℕ, ◌≡◌, refl, ◌∙◌, ap, sym, false, List, [], ◌∷◌, ◌++◌, none, some, append_assoc, inl, inr,
  Bool-cases, arith,
}
use go_shadowsocks.Socks.Text.{
  has, join_host_port, last_colon, before_bracket, split_host_port, split_parts,
}

last_colon-none : (p : List ℕ) → has b':' p ≡ false → last_colon p ≡ none
unfolding has last_colon
last_colon-none [] h = refl
last_colon-none (c ∷ cs) h = ground (arith, last_colon-none cs)

last_colon-append : (h p : List ℕ) → has b':' p ≡ false → last_colon (h ++ b':' ∷ p) ≡ some (h, p)
unfolding last_colon
last_colon-append [] p e = rw (last_colon-none p e) refl
last_colon-append (c ∷ h) p e = rw (last_colon-append h p e) refl

before_bracket-append : (x : List ℕ) → has b']' x ≡ false → before_bracket (x ++ b']' ∷ []) ≡ some x
unfolding has before_bracket
before_bracket-append [] e = refl
before_bracket-append (c ∷ []) e = ground arith
before_bracket-append (c ∷ d ∷ x) e = ground (arith, before_bracket-append (d ∷ x))

plain_parts :
    (host port : List ℕ)
    → has b':' host ≡ false
    → has b'[' host ≡ false
    → has b']' host ≡ false
    → has b'[' port ≡ false
    → has b']' port ≡ false
    → split_parts host port ≡ some (host, port)
unfolding has
plain_parts [] port e₁ e₂ e₃ e₄ e₅ = ground arith
plain_parts (c ∷ host) port e₁ e₂ e₃ e₄ e₅ = ground arith

-- A host with no bracket, with or without colons, and a port with neither come back as they were.
pub split_host_port-join :
    (host port : List ℕ)
    → has b'[' host ≡ false
    → has b']' host ≡ false
    → has b':' port ≡ false
    → has b'[' port ≡ false
    → has b']' port ≡ false
    → split_host_port (join_host_port host port) ≡ some (host, port)
unfolding split_host_port join_host_port
split_host_port-join host port e₁ e₂ e₃ e₄ e₅ = elim (Bool-cases (has b':' host)) [
  | inl colon ↦ rw colon (rw bracketed (rw (before_bracket-append host e₂, e₁, e₄, e₅)))
  | inr plain ↦
      ground (arith, last_colon-append host port e₃, plain_parts host port plain e₁ e₂ e₄ e₅)
]
  where
    bracketed :
        last_colon (b'[' ∷ (host ++ b']' ∷ b':' ∷ port)) ≡ some (b'[' ∷ (host ++ b']' ∷ []), port)
    bracketed =
        ap (λ t. last_colon (b'[' ∷ t)) (sym (append_assoc host (b']' ∷ []) (b':' ∷ port)))
        ∙ last_colon-append (b'[' ∷ (host ++ b']' ∷ [])) port e₃
