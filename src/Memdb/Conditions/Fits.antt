-- ===== src/Memdb/Conditions/Fits.antt =====
-- memdb/expression.go: results of a parser that leave fewer tokens than they were given.
use dynago.Prelude.{
  ℕ, suc, ◌≤◌, ◌<◌, ◌≡◌, ◌≢◌, refl, Bool, true, false, List, [], ◌∷◌, Bytes, bytes, Option, none,
  some, ◌≟◌, length, if◌then◌else◌, inl, inr, ◌⊎◌, Result, ok, err, expression, out_of_fuel, arith,
  to_lower, equal_fold,
}
use dynago.Attribute.{AttributeValue}
use dynago.Expr.Ast.{Node}
use dynago.Memdb.Parsing.{Parser, ◌>>=◌, rest_of, expect, at_keyword, at_token}
use dynago.Memdb.Conditions.{
  Start, at_end, at_value, at_name, at_ident, at_other, separator, or_fail,
}

-- A result that is not for want of fuel and leaves fewer than `n` tokens.
abbrev pub Fits {ℓ} : {A : Type ℓ} → ℕ → Result (A × List Bytes) → Type 0
Fits n (ok (a, us)) = length us < n
Fits n (err e) = e ≢ out_of_fuel

pub syntax_error : expression ≢ out_of_fuel
syntax_error e = cc

pub Fits-weaken {ℓ} :
    {A : Type ℓ} (n m : ℕ) (r : Result (A × List Bytes)) → n ≤ m → Fits n r → Fits m r
Fits-weaken n m (ok (a, us)) h fits = omega (arith, fits)
Fits-weaken n m (err e) h fits = fits

pub Fits-bind {ℓ κ} :
    {A : Type ℓ} {B : Type κ} (n m : ℕ) (q : Parser A) (f : A → Parser B) (ts : List Bytes)
    → Fits n (q ts)
    → ((a : A) (us : List Bytes) → length us < n → Fits m (f a us))
    → Fits m ((q >>= f) ts)
Fits-bind {A = A} {B = B} n m q f ts first next = bound (q ts) first
  where
    bound :
        (r : Result (A × List Bytes))
        → Fits n r
        → Fits m (elim r [ ok (a, rest) ↦ f a rest | err e ↦ err e ])
    bound (ok (a, us)) first = next a us first
    bound (err e) first = first

pub Fits-test {ℓ} :
    {A : Type ℓ} (n : ℕ) (b : Bool) (x y : Result (A × List Bytes))
    → (b ≡ true → Fits n x)
    → (b ≡ false → Fits n y)
    → Fits n (if b then x else y)
Fits-test n true x y on_true on_false = on_true refl
Fits-test n false x y on_true on_false = on_false refl

pub expect-Fits : (tok : Bytes) (ts : List Bytes) → Fits (length ts) (expect tok ts)
unfolding expect
expect-Fits tok [] = syntax_error
expect-Fits tok (t ∷ ts) =
    Fits-test (suc (length ts)) (t ≟ tok) (ok (tt, ts)) (err expression) (λ e. omega arith)
      (λ e. syntax_error)

pub keyword_shorter :
    (c : ℕ) (word : Bytes) (ts : List Bytes)
    → at_keyword (c ∷ word) ts ≡ true
    → length (rest_of ts) < length ts
unfolding at_keyword equal_fold to_lower ◌≟◌
keyword_shorter c word [] e = cc e
keyword_shorter c word (t ∷ ts) e = omega arith

pub token_shorter :
    (c : ℕ) (tok : Bytes) (ts : List Bytes)
    → at_token (c ∷ tok) ts ≡ true
    → length (rest_of ts) < length ts
unfolding at_token ◌≟◌
token_shorter c tok [] e = cc e
token_shorter c tok (t ∷ ts) e = omega arith

pub separator-Fits : (b : Bool) (ts : List Bytes) → Fits (suc (length ts)) (separator b ts)
unfolding separator
separator-Fits true ts = omega arith
separator-Fits false ts =
    Fits-weaken (length ts) (suc (length ts)) (expect (bytes ",") ts) (omega arith)
      (expect-Fits (bytes ",") ts)

pub Start-cases :
    (s : Start)
    → (s ≡ at_end) ⊎ ((s ≡ at_value) ⊎ ((s ≡ at_name) ⊎ ((s ≡ at_ident) ⊎ (s ≡ at_other))))
Start-cases at_end = inl refl
Start-cases at_value = inr (inl refl)
Start-cases at_name = inr (inr (inl refl))
Start-cases at_ident = inr (inr (inr (inl refl)))
Start-cases at_other = inr (inr (inr (inr refl)))

pub or_fail-Fits :
    (v : Option AttributeValue) (ts : List Bytes) → Fits (suc (length ts)) (or_fail v ts)
unfolding or_fail
or_fail-Fits none ts = syntax_error
or_fail-Fits (some v) ts = omega arith

pub rest_short : (ts : List Bytes) → length (rest_of ts) ≤ length ts
rest_short [] = omega arith
rest_short (t ∷ ts) = omega arith

-- A function call if a bracket follows, a path if not.
pub call_or_path :
    (call : Result (Node × List Bytes)) (n : Node) (ts : List Bytes)
    → Fits (length ts) call
    → Fits (suc (length ts)) (if at_token (bytes "(") ts then call else ok (n, ts))
call_or_path call n ts fits =
    Fits-test (suc (length ts)) (at_token (bytes "(") ts) call (ok (n, ts))
      (λ e. Fits-weaken (length ts) (suc (length ts)) call (omega arith) fits) (λ e. omega arith)
