-- ===== src/Io/Fill.antt =====
-- io.ReadFull over any reader, by what its Read does.
use go_shadowsocks.Prelude.{
  subst, sym, ◌∙◌, ap, ℕ, zero, suc, ◌+◌, ◌-◌, ◌≤◌, ◌≡◌, ◌≢◌, refl, List, [], ◌∷◌, ◌++◌, length,
  take, drop, length-append, take-append_ge, drop-append_ge, arith,
}
use go_shadowsocks.Errors.{Result, ok, err, panic, M}
use go_shadowsocks.Io.{full_error}

abbrev pub prepend : {S : Type 0} → List ℕ → Result (List ℕ) × S → Result (List ℕ) × S
prepend b (ok bs, s) = (ok (b ++ bs), s)
prepend b (err e, s) = (err e, s)
prepend b (panic, s) = (panic, s)

-- What follows a `Read`: the rest of the loop, or the error, `got` bytes having come before.
abbrev pub go_on :
    {S : Type 0} → (ℕ → ℕ → M S (List ℕ)) → ℕ → ℕ → Result (List ℕ) × S → Result (List ℕ) × S
go_on next got k (ok b, s) = prepend b (next (got + length b) (k - length b) s)
go_on next got k (err e, s) = (err (full_error got e), s)
go_on next got k (panic, s) = (panic, s)

-- The loop of io.ReadAtLeast for the last `k` bytes; `panic` also stands for fuel that ran out.
unfoldable pub fill : {S : Type 0} → (ℕ → M S (List ℕ)) → ℕ → ℕ → ℕ → M S (List ℕ)
fill rd fuel got zero s = (ok [], s)
fill rd zero got (suc k) s = (panic, s)
fill rd (suc fuel) got (suc k) s = go_on (fill rd fuel) got (suc k) (rd (suc k) s)

-- A reader whose states hold queues of bytes: `Read` takes some bytes off the front.
abbrev pub IsQueue : {S : Type 0} → (S → List ℕ → Type 0) → (ℕ → M S (List ℕ)) → Type 0
IsQueue Q rd =
    (room : ℕ) (s : _) (p : List ℕ)
    → 1 ≤ room
    → p ≢ []
    → Q s p
    → (b : List ℕ) × (s' : _) × (rest : List ℕ) × (rd room s ≡ (ok b, s'))
      × (p ≡ b ++ rest)
      × (1 ≤ length b)
      × (length b ≤ room)
      × Q s' rest

module _ {S : Type 0} (Q : S → List ℕ → Type 0) (rd : ℕ → M S (List ℕ)) (q : IsQueue Q rd) where
  fill_step :
      (fuel got k : ℕ) (s s₁ s₂ : S) (b rest : List ℕ)
      → rd (suc k) s ≡ (ok b, s₁)
      → length b ≤ suc k
      → fill rd fuel (got + length b) (suc k - length b) s₁
        ≡ (ok (take (suc k - length b) rest), s₂)
      → fill rd (suc fuel) got (suc k) s ≡ (ok (take (suc k) (b ++ rest)), s₂)
  unfolding fill
  fill_step fuel got k s s₁ s₂ b rest run fits more =
      ap (go_on (fill rd fuel) got (suc k)) run
      ∙ ap (prepend b) more
      ∙ ap (λ (t : List ℕ). (ok t, s₂)) (sym (take-append_ge b rest (suc k) fits))

  -- Then io.ReadFull takes exactly the bytes asked for off the front, where there are enough.
  pub fill-IsQueue :
      (fuel got k : ℕ) (s : S) (p : List ℕ)
      → k ≤ fuel
      → k ≤ length p
      → Q s p
      → (s' : S) × (fill rd fuel got k s ≡ (ok (take k p), s')) × Q s' (drop k p)
  unfolding fill
  fill-IsQueue fuel got zero s p hf hp h = (s, refl, h)
  fill-IsQueue zero got (suc k) s p hf hp h = absurd (omega arith)
  fill-IsQueue (suc fuel) got (suc k) s [] hf hp h = absurd (omega arith)
  fill-IsQueue (suc fuel) got (suc k) s (x ∷ p) hf hp h =
      let (b, s₁, rest, run, cut, some_byte, fits, holds) =
        q (suc k) s (x ∷ p) (omega arith) (λ e. cc e) h in
      let long = length-append b rest in
      let (s₂, more, left) =
        fill-IsQueue fuel (got + length b) (suc k - length b) s₁ rest (omega arith)
          (omega (arith, ap length cut, long)) holds in
      (
        s₂,
        fill_step fuel got k s s₁ s₂ b rest run fits more
            ∙ ap (λ t. (ok (take (suc k) t), s₂)) (sym cut),
        subst (Q s₂) (sym (ap (drop (suc k)) cut ∙ drop-append_ge b rest (suc k) fits)) left,
      )
