-- ===== src/Socks/Text/Decimal.antt =====
-- strconv.Itoa and strconv.ParseUint(s, 10, 16) are inverse on the 16-bit numbers.
use native.Mathlib.Nat.{pow-suc}
use go_shadowsocks.Prelude.{
  ℕ, zero, suc, ◌+◌, ◌/◌, ◌%◌, ◌^◌, ◌<◌, ◌≡◌, refl, ◌∙◌, ap, sym, false, List, [], ◌∷◌, ◌++◌, some,
  append-nil, ◌≢◌, append_assoc, arith,
}
use go_shadowsocks.Socks.Text.{digits, itoa, is_digit, parse_digits, parse_uint16, up_to, has}

parse_digits-digits :
    (fuel n : ℕ) (rest : List ℕ)
    → n < 10 ^ fuel
    → parse_digits (digits fuel n ++ rest) 0 ≡ parse_digits rest n
unfolding digits parse_digits
parse_digits-digits zero n rest h = ap (parse_digits rest) (omega arith)
parse_digits-digits (suc fuel) n rest h =
    let small : n / 10 < 10 ^ fuel = omega (arith, pow-suc 10 fuel) in
    ground (
      arith,
      parse_digits-digits fuel (n / 10) ((48 + n % 10) ∷ rest) small,
      append_assoc (digits fuel (n / 10)) ((48 + n % 10) ∷ []) rest,
    )

has-append :
    (c : ℕ) (xs ys : List ℕ) → has c xs ≡ false → has c ys ≡ false → has c (xs ++ ys) ≡ false
unfolding has
has-append c [] ys h k = k
has-append c (x ∷ xs) ys h k = ground (arith, has-append c xs ys)

has-digits : (c fuel n : ℕ) → is_digit c ≡ false → has c (digits fuel n) ≡ false
unfolding digits has
has-digits c zero n h = refl
has-digits c (suc fuel) n h =
    ground (
      arith,
      has-digits c fuel (n / 10) h,
      has-append c (digits fuel (n / 10)) ((48 + n % 10) ∷ []),
    )

-- No other character than a digit is printed.
pub has-itoa : (c n : ℕ) → is_digit c ≡ false → has c (itoa n) ≡ false
unfolding itoa
has-itoa c n h = has-digits c 20 n h

parse_digits_end : (n : ℕ) → parse_digits [] n ≡ some n
unfolding parse_digits
parse_digits_end n = refl

append-ne-nil : (xs : List ℕ) (y : ℕ) → xs ++ y ∷ [] ≢ []
append-ne-nil [] y e = cc
append-ne-nil (x ∷ xs) y e = cc

digits-ne-nil : (fuel n : ℕ) → digits (suc fuel) n ≢ []
unfolding digits
digits-ne-nil fuel n e = ground (arith, append-ne-nil (digits fuel (n / 10)) (48 + n % 10))

parse_uint16_nonempty :
    (xs : List ℕ) (n : ℕ)
    → xs ≢ []
    → parse_digits xs 0 ≡ some n
    → n < 65536
    → parse_uint16 xs ≡ some n
unfolding parse_uint16
parse_uint16_nonempty [] n ne e h = absurd (ne refl)
parse_uint16_nonempty (c ∷ cs) n ne e h = rw (e, up_to) (ground arith)

-- Printing a 16-bit number and parsing it gives it back.
pub parse_uint16-itoa : (n : ℕ) → n < 65536 → parse_uint16 (itoa n) ≡ some n
unfolding itoa
parse_uint16-itoa n h = parse_uint16_nonempty (digits 20 n) n (digits-ne-nil 19 n) whole h
  where
    whole : parse_digits (digits 20 n) 0 ≡ some n
    whole =
        ap (λ xs. parse_digits xs 0) (sym (append-nil (digits 20 n)))
        ∙ parse_digits-digits 20 n [] (omega arith)
        ∙ parse_digits_end n
