-- ===== src/Client/Conditions/Placeholder.antt =====
-- condition.go, update.go: the placeholders :v0, :v1, ... of values.
use dynago.Prelude.{
  ℕ, zero, suc, ◌+◌, ◌-◌, ◌*◌, ◌<◌, ◌≡◌, sym, ap, ◌∙◌, [], ◌∷◌, Bytes, ltb, Bool-cases, inl, inr,
  arith,
}
use Prim.Native.Nat.{◌/◌, ◌%◌}
use dynago.Expr.Floats.{decimal, format_int}

-- fmt.Sprintf(":v%d", i)
unfoldable pub placeholder : ℕ → Bytes
placeholder i = b':' ∷ b'v' ∷ format_int i

-- The number that decimal digits denote.
number : ℕ → Bytes → ℕ
number n [] = n
number n (c ∷ s) = number (n * 10 + (c - 48)) s

number-decimal : (f n : ℕ) (s : Bytes) → n < f → number 0 (decimal f n s) ≡ number n s
unfolding number decimal
number-decimal zero n s h = absurd (omega (arith, h))
number-decimal (suc f) n s h = elim (Bool-cases (ltb n 10)) [
  | inl small ↦ ground arith
  | inr large ↦
      let smaller : n / 10 < f = ground arith in
      let whole : (n / 10) * 10 + ((48 + n % 10) - 48) ≡ n = omega arith in
      let later = number-decimal f (n / 10) ((48 + n % 10) ∷ s) smaller in
      rw large (later ∙ ap (λ m. number m s) whole)
]

pub placeholder-injective : (i j : ℕ) → placeholder i ≡ placeholder j → i ≡ j
unfolding placeholder format_int number
placeholder-injective i j e =
    let digits : format_int i ≡ format_int j = ground (arith, e) in
    sym (number-decimal (suc i) i [] (omega arith))
    ∙ ap (number 0) digits
    ∙ number-decimal (suc j) j [] (omega arith)
