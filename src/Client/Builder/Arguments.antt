-- ===== src/Client/Builder/Arguments.antt =====
-- internal/expr/builder.go: ParseCondition ends, and binds its arguments in their order.
use dynago.Prelude.{
  ℕ, zero, suc, ◌+◌, ◌*◌, ◌≤◌, ◌≡◌, ◌≢◌, refl, ◌∙◌, List, [], ◌∷◌, Bytes, bytes, length, map,
  Result, ok, err, out_of_fuel, arith,
}
use mathlib.Core.List.{append-nil}
use mathlib.Core.Path.{subst}
use dynago.Expr.Ast.{LogicalOp, Node, logical_node}
use dynago.Client.Values.{GoValue, Printers, go_to_attribute_value}
use dynago.Memdb.Parsing.{rest_of, expect, at_keyword, at_token}
use dynago.Memdb.Conditions.Fits.{expect-Fits, keyword_shorter, token_shorter, rest_short}
use dynago.Client.Builder.{
  parse_primary_with, parse_or_with, or_loop_with, parse_and_with, and_loop_with, parse_not_with,
  parse_comparison_with, tokenize, whole_with, fuel_for, parse_condition,
}
use dynago.Client.Builder.Takes.{
  node_values, known, Takes, joined, Takes-weaken, Takes-from, Takes-test, Takes-bind, Takes-after,
}
use dynago.Client.Builder.Operands.{operands, right_ends}

module _ (P : Printers) where
  -- With this fuel the parsers of the operators end.
  record Ladder (f : ℕ) : Type 0 where
    or_ends :
        (args : List GoValue) (ts : List Bytes)
        → 8 * length ts + 8 ≤ f
        → Takes P node_values (length ts) (known P [] args) (parse_or_with P f args ts)
    or_loop_ends :
        (left : Node) (args : List GoValue) (ts : List Bytes)
        → 8 * length ts + 7 ≤ f
        → Takes P node_values
            (suc (length ts))
            (known P (node_values left) args)
            (or_loop_with P f left args ts)
    and_ends :
        (args : List GoValue) (ts : List Bytes)
        → 8 * length ts + 7 ≤ f
        → Takes P node_values (length ts) (known P [] args) (parse_and_with P f args ts)
    and_loop_ends :
        (left : Node) (args : List GoValue) (ts : List Bytes)
        → 8 * length ts + 6 ≤ f
        → Takes P node_values
            (suc (length ts))
            (known P (node_values left) args)
            (and_loop_with P f left args ts)
    not_ends :
        (args : List GoValue) (ts : List Bytes)
        → 8 * length ts + 6 ≤ f
        → Takes P node_values (length ts) (known P [] args) (parse_not_with P f args ts)
    comparison_ends :
        (args : List GoValue) (ts : List Bytes)
        → 8 * length ts + 5 ≤ f
        → Takes P node_values (length ts) (known P [] args) (parse_comparison_with P f args ts)

  parse_or_with_step :
      (f : ℕ)
      → Ladder f
      → (args : List GoValue) (ts : List Bytes) → 8 * length ts + 8 ≤ suc f
      → Takes P node_values (length ts) (known P [] args) (parse_or_with P (suc f) args ts)
  unfolding parse_or_with
  parse_or_with_step f ih args ts h =
      Takes-bind P node_values node_values (length ts) (length ts) (known P [] args) _
        (parse_and_with P f args) _ ts (ih.and_ends args ts (omega (arith, h)))
        (λ left later us fewer e. Takes-from P node_values (length ts) _ _ _ e (
          Takes-weaken P node_values (suc (length us)) (length ts) _ _ (omega (arith, fewer))
            (ih.or_loop_ends left later us (omega (arith, h, fewer)))))

  or_loop_with_step :
      (f : ℕ)
      → Ladder f
      → (left : Node) (args : List GoValue) (ts : List Bytes) → 8 * length ts + 7 ≤ suc f
      → Takes P node_values
          (suc (length ts))
          (known P (node_values left) args)
          (or_loop_with P (suc f) left args ts)
  unfolding or_loop_with node_values
  or_loop_with_step f ih left args ts h =
      Takes-test P node_values (suc (length ts)) _ (at_keyword (bytes "OR") ts) _ _
        (λ b.
          Takes-bind P node_values node_values (length (rest_of ts)) (suc (length ts))
            (known P [] args) _ (parse_and_with P f args) _ (rest_of ts)
            (ih.and_ends args (rest_of ts) (omega (arith, h, keyword_shorter _ _ ts b)))
            (λ right later us fewer e.
              Takes-from P node_values (suc (length ts)) _ _ _
                (joined P (node_values left) (node_values right) args later e)
                (Takes-weaken P node_values (suc (length us)) (suc (length ts)) _ _
                  (omega (arith, fewer, rest_short ts))
                  (ih.or_loop_ends (logical_node LogicalOp.or left right) later us
                    (omega (arith, h, fewer, rest_short ts))))))
        (λ b. (omega arith, refl))

  parse_and_with_step :
      (f : ℕ)
      → Ladder f
      → (args : List GoValue) (ts : List Bytes) → 8 * length ts + 7 ≤ suc f
      → Takes P node_values (length ts) (known P [] args) (parse_and_with P (suc f) args ts)
  unfolding parse_and_with
  parse_and_with_step f ih args ts h =
      Takes-bind P node_values node_values (length ts) (length ts) (known P [] args) _
        (parse_not_with P f args) _ ts (ih.not_ends args ts (omega (arith, h)))
        (λ left later us fewer e. Takes-from P node_values (length ts) _ _ _ e (
          Takes-weaken P node_values (suc (length us)) (length ts) _ _ (omega (arith, fewer))
            (ih.and_loop_ends left later us (omega (arith, h, fewer)))))

  and_loop_with_step :
      (f : ℕ)
      → Ladder f
      → (left : Node) (args : List GoValue) (ts : List Bytes) → 8 * length ts + 6 ≤ suc f
      → Takes P node_values
          (suc (length ts))
          (known P (node_values left) args)
          (and_loop_with P (suc f) left args ts)
  unfolding and_loop_with node_values
  and_loop_with_step f ih left args ts h =
      Takes-test P node_values (suc (length ts)) _ (at_keyword (bytes "AND") ts) _ _
        (λ b.
          Takes-bind P node_values node_values (length (rest_of ts)) (suc (length ts))
            (known P [] args) _ (parse_not_with P f args) _ (rest_of ts)
            (ih.not_ends args (rest_of ts) (omega (arith, h, keyword_shorter _ _ ts b)))
            (λ right later us fewer e.
              Takes-from P node_values (suc (length ts)) _ _ _
                (joined P (node_values left) (node_values right) args later e)
                (Takes-weaken P node_values (suc (length us)) (suc (length ts)) _ _
                  (omega (arith, fewer, rest_short ts))
                  (ih.and_loop_ends (logical_node LogicalOp.and left right) later us
                    (omega (arith, h, fewer, rest_short ts))))))
        (λ b. (omega arith, refl))

  parse_not_with_step :
      (f : ℕ)
      → Ladder f
      → (args : List GoValue) (ts : List Bytes) → 8 * length ts + 6 ≤ suc f
      → Takes P node_values (length ts) (known P [] args) (parse_not_with P (suc f) args ts)
  unfolding parse_not_with node_values
  parse_not_with_step f ih args ts h =
      Takes-test P node_values (length ts) _ (at_keyword (bytes "NOT") ts) _ _
        (λ b.
          Takes-bind P node_values node_values (length (rest_of ts)) (length ts) (known P [] args) _
            (parse_not_with P f args) _ (rest_of ts)
            (ih.not_ends args (rest_of ts) (omega (arith, h, keyword_shorter _ _ ts b)))
            (λ operand later us fewer e. (omega (arith, fewer, rest_short ts), e)))
        (λ b. ih.comparison_ends args ts (omega (arith, h)))

  parse_comparison_with_step :
      (f : ℕ)
      → Ladder f
      → (args : List GoValue) (ts : List Bytes) → 8 * length ts + 5 ≤ suc f
      → Takes P node_values (length ts) (known P [] args) (parse_comparison_with P (suc f) args ts)
  unfolding parse_comparison_with
  parse_comparison_with_step f ih args ts h =
      Takes-test P node_values (length ts) _ (at_token (bytes "(") ts) _ _
        (λ b.
          Takes-bind P node_values node_values (length (rest_of ts)) (length ts) (known P [] args) _
            (parse_or_with P f args) _ (rest_of ts)
            (ih.or_ends args (rest_of ts) (omega (arith, h, token_shorter _ _ ts b)))
            (λ inner later us fewer e.
              Takes-after P node_values (length us) (length ts) _ (expect (bytes ")")) _ us
                (expect-Fits (bytes ")") us)
                (λ vs less. (omega (arith, fewer, less, rest_short ts), e))))
        (λ b.
          Takes-bind P node_values node_values (length ts) (length ts) (known P [] args) _
            (parse_primary_with P f args) _ ts ((operands P f).primary args ts (omega (arith, h)))
            (λ left later us fewer e. Takes-from P node_values (length ts) _ _ _ e (
              Takes-weaken P node_values (suc (length us)) (length ts) _ _ (omega (arith, fewer))
                (right_ends P f left later us (omega (arith, h, fewer))))))

  ladder : (f : ℕ) → Ladder f
  ladder zero = record {
    or_ends = λ args ts h. absurd (omega (arith, h));
    or_loop_ends = λ left args ts h. absurd (omega (arith, h));
    and_ends = λ args ts h. absurd (omega (arith, h));
    and_loop_ends = λ left args ts h. absurd (omega (arith, h));
    not_ends = λ args ts h. absurd (omega (arith, h));
    comparison_ends = λ args ts h. absurd (omega (arith, h));
  }
  ladder (suc f) = record {
    or_ends = parse_or_with_step f (ladder f);
    or_loop_ends = or_loop_with_step f (ladder f);
    and_ends = parse_and_with_step f (ladder f);
    and_loop_ends = and_loop_with_step f (ladder f);
    not_ends = parse_not_with_step f (ladder f);
    comparison_ends = parse_comparison_with_step f (ladder f);
  }

  -- The tree takes all the arguments, or there is an error that is not for want of fuel.
  abbrev Binds : List GoValue → Result Node → Type 0
  Binds args (ok tree) = map (go_to_attribute_value P) args ≡ map ok (node_values tree)
  Binds args (err e) = e ≢ out_of_fuel

  whole_with-Binds :
      (n : ℕ) (args : List GoValue) (r : Result ((Node × List GoValue) × List Bytes))
      → Takes P node_values n (known P [] args) r
      → Binds args (whole_with P r)
  unfolding whole_with
  whole_with-Binds n args (ok ((tree, []), [])) (fewer, e) =
      e ∙ append-nil (map ok (node_values tree))
  whole_with-Binds n args (ok ((tree, []), t ∷ ts)) (fewer, e) = λ same. cc same
  whole_with-Binds n args (ok ((tree, v ∷ vs), ts)) (fewer, e) = λ same. cc same
  whole_with-Binds n args (err e) fits = fits

  binds : (text : Bytes) (args : List GoValue) → Binds args (parse_condition P text args)
  unfolding parse_condition
  binds text args =
      let ts = tokenize text in
      whole_with-Binds (length ts) args (parse_or_with P (fuel_for P ts) args ts)
        ((ladder (fuel_for P ts)).or_ends args ts (omega arith))

  -- ParseCondition ends: whatever the text and the arguments, the fuel that it is given is enough.
  pub parse_condition-ne-out_of_fuel :
      (text : Bytes) (args : List GoValue) → parse_condition P text args ≢ err out_of_fuel
  parse_condition-ne-out_of_fuel text args h = subst (Binds args) h (binds text args) refl

  -- If ParseCondition succeeds, every argument converts to an attribute value, and the values of the
  -- tree from left to right are those of the arguments in their order.
  pub node_values-parse_condition :
      (text : Bytes) (args : List GoValue) (tree : Node)
      → parse_condition P text args ≡ ok tree
      → map (go_to_attribute_value P) args ≡ map ok (node_values tree)
  node_values-parse_condition text args tree h = subst (Binds args) h (binds text args)
