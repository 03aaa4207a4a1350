-- ===== src/Store/Commits/Decimals.antt =====
-- Decimal numbers are read back as they are.
use mysnapshotter.Prelude.{
  ℕ, zero, suc, ◌+◌, ◌-◌, ◌*◌, ◌/◌, ◌%◌, ◌<◌, ◌≡◌, refl, ap, ◌∙◌, inl, inr, some, [], ◌∷◌, ◌++◌,
  arith, ltb, ltb→lt, Bool-cases, Text,
}
use mysnapshotter.Chunked.Toc.{parse_digits, is_digit}
use mysnapshotter.Store.Commits.{show_digits, show_decimal}

last_digit : (n : ℕ) → n % 10 < 10
last_digit n = omega arith

parse_digits-append :
    (acc k c : ℕ) (s : Text)
    → parse_digits acc s ≡ some k
    → c < 10
    → parse_digits acc (s ++ ((48 + c) ∷ [])) ≡ some (k * 10 + c)
unfolding parse_digits
parse_digits-append acc k c [] h b = ground arith
parse_digits-append acc k c (d ∷ s) h b = elim (Bool-cases (is_digit d)) [
  | inl y ↦ rw y (parse_digits-append (acc * 10 + (d - 48)) k c s (ground arith) b)
  | inr y ↦ absurd (ground arith)
]

no_digits : parse_digits 0 [] ≡ some 0
unfolding parse_digits
no_digits = refl

show_digits-parse : (rounds n : ℕ) → n < rounds → parse_digits 0 (show_digits rounds n) ≡ some n
unfolding show_digits
show_digits-parse zero n h = absurd (omega arith)
show_digits-parse (suc rounds) n h = elim (Bool-cases (ltb n 10)) [
  | inl y ↦ rw y (
      let low : n < 10 = ltb→lt n 10 y in
      parse_digits-append 0 0 (n % 10) [] no_digits (last_digit n) ∙ ap some (omega (arith, low)))
  | inr y ↦ rw y (
      parse_digits-append 0 (n / 10) (n % 10) (show_digits rounds (n / 10))
        (show_digits-parse rounds (n / 10) (ground arith)) (omega arith)
      ∙ ap some (omega arith))
]

-- The decimal digits of a number, read back, give the number.
pub show_decimal-parse_digits : (n : ℕ) → parse_digits 0 (show_decimal n) ≡ some n
show_decimal-parse_digits n = show_digits-parse (suc n) n (omega arith)
