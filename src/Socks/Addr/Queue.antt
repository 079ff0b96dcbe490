-- ===== src/Socks/Addr/Queue.antt =====
-- `ReadAddr` of socks/socks.go over any reader whose states hold queues of bytes.
use go_shadowsocks.Prelude.{
  subst, ℕ, ◌+◌, ◌≤◌, ◌≡◌, ◌∙◌, ap, sym, List, [], ◌∷◌, ◌++◌, some, length, take, drop,
  take-append-drop, arith,
}
use native.Mathlib.Decide.{ℕ_discrete}
use go_shadowsocks.Errors.{pass, Result, ok, M}
use go_shadowsocks.Socks.Addr.{
  addr_len, split_addr, read_domain, read_fixed, read_by_type, read_addr_into, read_addr,
}
use go_shadowsocks.Socks.Addr.Read.{split_v4, split_v6, split_domain, split_other}

module _ {S : Type 0} (Q : S → List ℕ → Type 0) (rf : ℕ → M S (List ℕ))
    (takes : (k : ℕ) (s : S) (p : List ℕ)
      → k ≤ length p
      → Q s p
      → (s' : S) × (rf k s ≡ (ok (take k p), s')) × Q s' (drop k p)) where
  -- A read that returns `a` in front of `rest`.
  abbrev Gives : List ℕ → Result (List ℕ) × S → Type 0
  Gives whole r =
      (a : List ℕ) × (s' : S) × (rest : List ℕ) × (r ≡ (ok a, s'))
      × (whole ≡ a ++ rest)
      × (split_addr whole ≡ some a)
      × Q s' rest

  fixed-Gives :
      (atyp n : ℕ) (s : S) (b : List ℕ)
      → n ≤ length b
      → split_addr (atyp ∷ b) ≡ some (atyp ∷ take n b)
      → Q s b
      → Gives (atyp ∷ b) (read_fixed rf atyp n s)
  unfolding read_fixed
  fixed-Gives atyp n s b h e q =
      let (s', got, left) = takes n s b h q in
      (
        atyp ∷ take n b,
        s',
        drop n b,
        ground (arith, got),
        ap (◌∷◌ atyp) (sym (take-append-drop n b)),
        e,
        left,
      )

  domain-Gives :
      (l : ℕ) (s : S) (b : List ℕ)
      → l + 2 ≤ length b
      → split_addr (3 ∷ l ∷ b) ≡ some (3 ∷ l ∷ take (l + 2) b)
      → Q s (l ∷ b)
      → Gives (3 ∷ l ∷ b) (read_domain rf s)
  unfolding read_domain
  domain-Gives l s b h e q =
      let (s₁, got₁, left₁) = takes 1 s (l ∷ b) (omega arith) q in
      let (s₂, got₂, left₂) = takes (l + 2) s₁ b h left₁ in
      (
        3 ∷ l ∷ take (l + 2) b,
        s₂,
        drop (l + 2) b,
        ground (arith, got₁, got₂),
        ap (λ t. 3 ∷ l ∷ t) (sym (take-append-drop (l + 2) b)),
        e,
        left₂,
      )

  v4-Gives :
      (s : S) (b a : List ℕ)
      → split_addr (1 ∷ b) ≡ some a
      → Q s b
      → Gives (1 ∷ b) (read_fixed rf 1 6 s)
  v4-Gives s b a e q =
      fixed-Gives 1 6 s b (ground (arith, split_v4 b, e)) (ground (arith, split_v4 b, e)) q

  v6-Gives :
      (s : S) (b a : List ℕ)
      → split_addr (4 ∷ b) ≡ some a
      → Q s b
      → Gives (4 ∷ b) (read_fixed rf 4 18 s)
  v6-Gives s b a e q =
      fixed-Gives 4 18 s b (ground (arith, split_v6 b, e)) (ground (arith, split_v6 b, e)) q

  any_domain-Gives :
      (s : S) (b a : List ℕ)
      → split_addr (3 ∷ b) ≡ some a
      → Q s b
      → Gives (3 ∷ b) (read_domain rf s)
  any_domain-Gives s [] a e q = absurd (unfold split_addr addr_len in ground (arith, e))
  any_domain-Gives s (l ∷ b) a e q =
      domain-Gives l s b (ground (arith, split_domain l b, e)) (ground (arith, split_domain l b, e))
        q

  by_type-Gives :
      (x : ℕ) (s : S) (b a : List ℕ)
      → split_addr (x ∷ b) ≡ some a
      → Q s b
      → Gives (x ∷ b) (read_by_type rf (x ∷ []) s)
  unfolding read_by_type
  by_type-Gives x s b a e q = elim (ℕ_discrete x 3) [
    | yes is ↦ rw is (any_domain-Gives s b a (subst (λ y. split_addr (y ∷ b) ≡ some a) is e) q)
    | no n₃ ↦ elim (ℕ_discrete x 1) [
      | yes is ↦ rw is (v4-Gives s b a (subst (λ y. split_addr (y ∷ b) ≡ some a) is e) q)
      | no n₁ ↦ elim (ℕ_discrete x 4) [
        | yes is ↦ rw is (v6-Gives s b a (subst (λ y. split_addr (y ∷ b) ≡ some a) is e) q)
        | no n₄ ↦ absurd (ground (arith, split_other x b n₁ n₃ n₄, e))
      ]
    ]
  ]

  -- Where the bytes to come begin with an address, `ReadAddr` returns it and leaves what follows it.
  pub read_addr-Gives :
      (s : S) (p a : List ℕ)
      → split_addr p ≡ some a
      → Q s p
      → (s' : S) × (rest : List ℕ) × (read_addr rf s ≡ (ok a, s')) × (p ≡ a ++ rest) × Q s' rest
  unfolding read_addr read_addr_into
  read_addr-Gives s [] a e q = absurd (unfold split_addr in ground (arith, e))
  read_addr-Gives s (x ∷ b) a e q =
      let (s₁, got, left) = takes 1 s (x ∷ b) (omega arith) q in
      let (a', s₂, rest, run, cut, again, holds) = by_type-Gives x s₁ b a e left in
      let same : a' ≡ a = cc (again, e) in
      (
        s₂,
        rest,
        ap (pass (read_by_type rf)) got ∙ run ∙ ap (λ (t : List ℕ). (ok t, s₂)) same,
        cut ∙ ap (λ t. t ++ rest) same,
        holds,
      )
