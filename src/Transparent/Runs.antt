-- ===== src/Transparent/Runs.antt =====
-- tcp_linux.go at a concrete target.
use go_shadowsocks.Socks.Addr.{split_addr}
use go_shadowsocks.Errors.{err, ok, Result}
use go_shadowsocks.Transparent.{not_tcp, orig_dst-split_addr, get_orig_dst, orig_dst, Sized}
use go_shadowsocks.Prelude.{
  ℕ, ◌≡◌, refl, subst, Bool, true, false, none, some, List, [], ◌∷◌, length,
}

abbrev target : Bool → Result (List ℕ × List ℕ)
target false = ok (10 ∷ 0 ∷ 0 ∷ 1 ∷ [], 0 ∷ 80 ∷ [])
target true = err not_tcp

sized : (b : Bool) → Sized b (target b)
sized false raw port e =
    let r : 10 ∷ 0 ∷ 0 ∷ 1 ∷ [] ≡ raw = cc e in
    let p : 0 ∷ 80 ∷ [] ≡ port = cc e in
    (subst (λ x. length x ≡ 4) r refl, subst (λ x. length x ≡ 2) p refl)
sized true raw port e = absurd (cc e)

orig_dst-split_addr_example :
    split_addr (1 ∷ 10 ∷ 0 ∷ 0 ∷ 1 ∷ 0 ∷ 80 ∷ 7 ∷ 8 ∷ []) ≡ some (1 ∷ 10 ∷ 0 ∷ 0 ∷ 1 ∷ 0 ∷ 80 ∷ [])
unfolding orig_dst get_orig_dst
orig_dst-split_addr_example =
    orig_dst-split_addr true none none false target (1 ∷ 10 ∷ 0 ∷ 0 ∷ 1 ∷ 0 ∷ 80 ∷ []) (7 ∷ 8 ∷ [])
      sized refl
