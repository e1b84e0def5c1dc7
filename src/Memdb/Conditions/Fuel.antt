-- ===== src/Memdb/Conditions/Fuel.antt =====
-- memdb/expression.go: the fuel of the condition parser.
use dynago.Prelude.{
  ℕ, zero, suc, ◌+◌, ◌*◌, ◌≤◌, ◌≢◌, List, [], ◌∷◌, Bytes, bytes, length, Result, ok, err,
  out_of_fuel, arith,
}
use dynago.Expr.Ast.{Node}
use dynago.Memdb.Tokens.{tokenize_expr}
use dynago.Memdb.Parsing.{Placeholders, rest_of, expect, at_keyword, at_token}
use dynago.Memdb.Conditions.{
  parse_primary, parse_or, or_loop, parse_and, and_loop, parse_not, parse_comparison, whole,
  enough_fuel, parse_expression_to_ast,
}
use dynago.Memdb.Conditions.Fits.{
  Fits, Fits-weaken, Fits-bind, Fits-test, expect-Fits, keyword_shorter, token_shorter, rest_short,
}
use dynago.Memdb.Conditions.Operands.{operands, tail_ends}

module _ (p : Placeholders) where
  -- With this fuel the parsers of the operators end.
  record Ladder (f : ℕ) : Type 0 where
    or_ends : (ts : List Bytes) → 8 * length ts + 8 ≤ f → Fits (length ts) (parse_or p f ts)
    or_loop_ends :
        (left : Node) (ts : List Bytes)
        → 8 * length ts + 7 ≤ f
        → Fits (suc (length ts)) (or_loop p f left ts)
    and_ends : (ts : List Bytes) → 8 * length ts + 7 ≤ f → Fits (length ts) (parse_and p f ts)
    and_loop_ends :
        (left : Node) (ts : List Bytes)
        → 8 * length ts + 6 ≤ f
        → Fits (suc (length ts)) (and_loop p f left ts)
    not_ends : (ts : List Bytes) → 8 * length ts + 6 ≤ f → Fits (length ts) (parse_not p f ts)
    comparison_ends :
        (ts : List Bytes) → 8 * length ts + 5 ≤ f → Fits (length ts) (parse_comparison p f ts)

  parse_or_step :
      (f : ℕ)
      → Ladder f
      → (ts : List Bytes) → 8 * length ts + 8 ≤ suc f
      → Fits (length ts) (parse_or p (suc f) ts)
  unfolding parse_or
  parse_or_step f ih ts h =
      Fits-bind (length ts) (length ts) (parse_and p f) _ ts (ih.and_ends ts (omega (arith, h)))
        (λ left us fewer.
          Fits-weaken (suc (length us)) (length ts) _ (omega (arith, fewer))
            (ih.or_loop_ends left us (omega (arith, h, fewer))))

  or_loop_step :
      (f : ℕ)
      → Ladder f
      → (left : Node) (ts : List Bytes) → 8 * length ts + 7 ≤ suc f
      → Fits (suc (length ts)) (or_loop p (suc f) left ts)
  unfolding or_loop
  or_loop_step f ih left ts h =
      Fits-test (suc (length ts)) (at_keyword (bytes "OR") ts) _ _
        (λ e.
          Fits-bind (length (rest_of ts)) (suc (length ts)) (parse_and p f) _ (rest_of ts)
            (ih.and_ends (rest_of ts) (omega (arith, h, keyword_shorter _ _ ts e)))
            (λ right us fewer.
              Fits-weaken (suc (length us)) (suc (length ts)) _
                (omega (arith, fewer, rest_short ts))
                (ih.or_loop_ends _ us (omega (arith, h, fewer, rest_short ts)))))
        (λ e. omega arith)

  parse_and_step :
      (f : ℕ)
      → Ladder f
      → (ts : List Bytes) → 8 * length ts + 7 ≤ suc f
      → Fits (length ts) (parse_and p (suc f) ts)
  unfolding parse_and
  parse_and_step f ih ts h =
      Fits-bind (length ts) (length ts) (parse_not p f) _ ts (ih.not_ends ts (omega (arith, h)))
        (λ left us fewer.
          Fits-weaken (suc (length us)) (length ts) _ (omega (arith, fewer))
            (ih.and_loop_ends left us (omega (arith, h, fewer))))

  and_loop_step :
      (f : ℕ)
      → Ladder f
      → (left : Node) (ts : List Bytes) → 8 * length ts + 6 ≤ suc f
      → Fits (suc (length ts)) (and_loop p (suc f) left ts)
  unfolding and_loop
  and_loop_step f ih left ts h =
      Fits-test (suc (length ts)) (at_keyword (bytes "AND") ts) _ _
        (λ e.
          Fits-bind (length (rest_of ts)) (suc (length ts)) (parse_not p f) _ (rest_of ts)
            (ih.not_ends (rest_of ts) (omega (arith, h, keyword_shorter _ _ ts e)))
            (λ right us fewer.
              Fits-weaken (suc (length us)) (suc (length ts)) _
                (omega (arith, fewer, rest_short ts))
                (ih.and_loop_ends _ us (omega (arith, h, fewer, rest_short ts)))))
        (λ e. omega arith)

  parse_not_step :
      (f : ℕ)
      → Ladder f
      → (ts : List Bytes) → 8 * length ts + 6 ≤ suc f
      → Fits (length ts) (parse_not p (suc f) ts)
  unfolding parse_not
  parse_not_step f ih ts h =
      Fits-test (length ts) (at_keyword (bytes "NOT") ts) _ _
        (λ e.
          Fits-bind (length (rest_of ts)) (length ts) (parse_not p f) _ (rest_of ts)
            (ih.not_ends (rest_of ts) (omega (arith, h, keyword_shorter _ _ ts e)))
            (λ operand us fewer. omega (arith, fewer, rest_short ts)))
        (λ e. ih.comparison_ends ts (omega (arith, h)))

  parse_comparison_step :
      (f : ℕ)
      → Ladder f
      → (ts : List Bytes) → 8 * length ts + 5 ≤ suc f
      → Fits (length ts) (parse_comparison p (suc f) ts)
  unfolding parse_comparison
  parse_comparison_step f ih ts h =
      Fits-test (length ts) (at_token (bytes "(") ts) _ _
        (λ e.
          Fits-bind (length (rest_of ts)) (length ts) (parse_or p f) _ (rest_of ts)
            (ih.or_ends (rest_of ts) (omega (arith, h, token_shorter _ _ ts e)))
            (λ inner us fewer.
              Fits-bind (length us) (length ts) (expect (bytes ")")) _ us
                (expect-Fits (bytes ")") us)
                (λ a vs less. omega (arith, fewer, less, rest_short ts))))
        (λ e.
          Fits-bind (length ts) (length ts) (parse_primary p f) _ ts
            ((operands p f).primary ts (omega (arith, h)))
            (λ left us fewer.
              Fits-weaken (suc (length us)) (length ts) _ (omega (arith, fewer))
                (tail_ends p f left us (omega (arith, h, fewer)))))

  ladder : (f : ℕ) → Ladder f
  ladder zero = record {
    or_ends = λ ts h. absurd (omega (arith, h));
    or_loop_ends = λ left ts h. absurd (omega (arith, h));
    and_ends = λ ts h. absurd (omega (arith, h));
    and_loop_ends = λ left ts h. absurd (omega (arith, h));
    not_ends = λ ts h. absurd (omega (arith, h));
    comparison_ends = λ ts h. absurd (omega (arith, h));
  }
  ladder (suc f) = record {
    or_ends = parse_or_step f (ladder f);
    or_loop_ends = or_loop_step f (ladder f);
    and_ends = parse_and_step f (ladder f);
    and_loop_ends = and_loop_step f (ladder f);
    not_ends = parse_not_step f (ladder f);
    comparison_ends = parse_comparison_step f (ladder f);
  }

  whole_ends : (n : ℕ) (r : Result (Node × List Bytes)) → Fits n r → whole r ≢ err out_of_fuel
  unfolding whole
  whole_ends n (ok (tree, [])) fits e = cc
  whole_ends n (ok (tree, t ∷ ts)) fits e = cc
  whole_ends n (err x) fits e = fits (cc e)

  -- Parsing a condition ends: whatever the text, the fuel that it is given is enough.
  pub parse_expression_to_ast-ne-out_of_fuel :
      (text : Bytes) → parse_expression_to_ast p text ≢ err out_of_fuel
  unfolding parse_expression_to_ast
  parse_expression_to_ast-ne-out_of_fuel text =
      let ts = tokenize_expr text in
      whole_ends (length ts) (parse_or p (enough_fuel ts) ts)
        ((ladder (enough_fuel ts)).or_ends ts (omega arith))
