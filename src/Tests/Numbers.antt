-- ===== src/Tests/Numbers.antt =====
-- A value of the float parameter, over the natural numbers, for the tests.
use dynago.Prelude.{
  ℕ, ◌+◌, ◌-◌, ◌*◌, true, false, ◌&&◌, [], ◌∷◌, Bytes, Option, none, some, leb, ltb, if◌then◌else◌,
}
use dynago.Expr.Floats.{FloatOps, format_int}

parse_nat : ℕ → Bytes → Option ℕ
parse_nat acc [] = some acc
parse_nat acc (c ∷ s) =
    if leb b'0' c && leb c b'9' then parse_nat (acc * 10 + (c - b'0')) s else none

parse_digits : Bytes → Option ℕ
unfolding parse_nat
parse_digits [] = none
parse_digits (c ∷ s) = parse_nat 0 (c ∷ s)

unfoldable pub naturals : FloatOps
unfolding parse_digits
naturals = record {
  parse_float = parse_digits;
  scan_float = λ s. elim (parse_digits s) [ none ↦ (0, false) | some n ↦ (n, true) ];
  less = ltb;
  plus = λ a b. a + b;
  minus = λ a b. a - b;
  is_integral = λ a. true;
  print_int = format_int;
  print_g = format_int;
}
