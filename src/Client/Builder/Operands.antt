-- ===== src/Client/Builder/Operands.antt =====
-- internal/expr/builder.go: parsePrimary, parseFuncCall and the end of parseComparison.
use dynago.Prelude.{
  ℕ, zero, suc, ◌+◌, ◌*◌, ◌≤◌, ◌≡◌, ◌≢◌, refl, sym, ap, ◌∙◌, List, [], ◌∷◌, Bytes, bytes, Option,
  none, some, length, ok, err, out_of_fuel, Result-cases, inl, inr, ◌⊎◌, arith,
}
use dynago.Expr.Ast.{
  CompareOp, Node, Nodes, compare_node, func_node, no_nodes, path_node, value_node,
}
use dynago.Client.Values.{
  GoValue, Printers, go_to_attribute_value, go_string, go_bytes, go_bool, go_int, go_small_int,
  go_uint, go_small_uint, go_float32, go_float64, go_strings, go_ints, go_attribute, go_nil,
  go_other,
}
use dynago.Memdb.Parsing.{pure, ◌>>=◌, peek, rest_of, expect, at_token}
use dynago.Memdb.Conditions.Fits.{Fits, syntax_error, Fits-weaken, expect-Fits, rest_short}
use dynago.Client.Builder.{
  PrimaryStart, at_argument, at_name, at_nothing, primary_start, take_argument, parse_primary_with,
  parse_func_call_with, parse_nodes, parse_right, comma_unless, add_node, compare_op_of,
}
use dynago.Client.Builder.Takes.{
  node_values, nodes_values, nodes_values-add_node, known, Takes, joined, Takes-weaken, Takes-from,
  Takes-test, Takes-bind, Takes-after,
}

PrimaryStart-cases : (s : PrimaryStart) → (s ≡ at_argument) ⊎ ((s ≡ at_name) ⊎ (s ≡ at_nothing))
PrimaryStart-cases at_argument = inl refl
PrimaryStart-cases at_name = inr (inl refl)
PrimaryStart-cases at_nothing = inr (inr refl)

comma_unless-Fits : (ns : Nodes) (ts : List Bytes) → Fits (suc (length ts)) (comma_unless ns ts)
unfolding comma_unless
comma_unless-Fits no_nodes ts = omega arith
comma_unless-Fits (dynago.Expr.Ast.node n ns) ts =
    Fits-weaken (length ts) (suc (length ts)) (expect (bytes ",") ts) (omega arith)
      (expect-Fits (bytes ",") ts)

module _ (P : Printers) where
  conversion_ends : (v : GoValue) → go_to_attribute_value P v ≢ err out_of_fuel
  unfolding go_to_attribute_value
  conversion_ends (go_string s) e = cc
  conversion_ends (go_bytes s) e = cc
  conversion_ends (go_bool b) e = cc
  conversion_ends (go_int n) e = cc
  conversion_ends (go_small_int n) e = cc
  conversion_ends (go_uint n) e = cc
  conversion_ends (go_small_uint n) e = cc
  conversion_ends (go_float32 f) e = cc
  conversion_ends (go_float64 f) e = cc
  conversion_ends (go_strings ss) e = cc
  conversion_ends (go_ints ns) e = cc
  conversion_ends (go_attribute av) e = cc
  conversion_ends go_nil e = cc
  conversion_ends go_other e = cc

  take_argument-Takes :
      (args : List GoValue) (ts : List Bytes)
      → Takes P node_values (suc (length ts)) (known P [] args) (take_argument P args ts)
  unfolding take_argument node_values
  take_argument-Takes [] ts = syntax_error
  take_argument-Takes (v ∷ vs) ts = elim (Result-cases (go_to_attribute_value P v)) [
    | inl (av, e) ↦ rw e (omega arith, refl)
    | inr (x, e) ↦ rw e (λ same. conversion_ends v (e ∙ ap err same))
  ]

  -- With this fuel the parsers of operands end, and take at least one token.
  pub record Operands (f : ℕ) : Type 0 where
    pub primary :
        (args : List GoValue) (ts : List Bytes)
        → 8 * length ts + 1 ≤ f
        → Takes P node_values (length ts) (known P [] args) (parse_primary_with P f args ts)
    pub call :
        (name : Bytes) (args : List GoValue) (ts : List Bytes)
        → 8 * length ts + 8 ≤ f
        → Takes P node_values (length ts) (known P [] args) (parse_func_call_with P f name args ts)
    pub nodes :
        (ns : Nodes) (args : List GoValue) (ts : List Bytes)
        → 8 * length ts + 8 ≤ f
        → Takes P nodes_values
            (suc (length ts))
            (known P (nodes_values ns) args)
            (parse_nodes P f ns args ts)

  primary_step :
      (f : ℕ)
      → Operands f
      → (args : List GoValue) (ts : List Bytes) → 8 * length ts + 1 ≤ suc f
      → Takes P node_values (length ts) (known P [] args) (parse_primary_with P (suc f) args ts)
  unfolding parse_primary_with primary_start node_values
  primary_step f ih args [] h = syntax_error
  primary_step f ih args (t ∷ ts) h = elim (PrimaryStart-cases (primary_start t)) [
    | inl e ↦ rw (e, parse_primary_with) (take_argument-Takes args ts)
    | inr (inl e) ↦
        rw (e, parse_primary_with)
          (Takes-test P node_values (suc (length ts)) (known P [] args) (at_token (bytes "(") ts) _
            _
            (λ b.
              Takes-weaken P node_values (length ts) (suc (length ts)) _ _ (omega arith)
                (ih.call t args ts (omega (arith, h))))
            (λ b. (omega arith, refl)))
    | inr (inr e) ↦ rw (e, parse_primary_with) syntax_error
  ]

  call_step :
      (f : ℕ)
      → Operands f
      → (name : Bytes) (args : List GoValue) (ts : List Bytes) → 8 * length ts + 8 ≤ suc f
      → Takes P node_values
          (length ts)
          (known P [] args)
          (parse_func_call_with P (suc f) name args ts)
  unfolding parse_func_call_with node_values
  call_step f ih name args ts h =
      Takes-after P node_values (length ts) (length ts) _ (expect (bytes "(")) _ ts
        (expect-Fits (bytes "(") ts)
        (λ us fewer.
          Takes-bind P nodes_values node_values (suc (length us)) (length ts) (known P [] args) _
            (parse_nodes P f no_nodes args) _ us
            (ih.nodes no_nodes args us (omega (arith, h, fewer)))
            (λ ns later vs less e. (omega (arith, fewer, less), e)))

  nodes_step :
      (f : ℕ)
      → Operands f
      → (ns : Nodes) (args : List GoValue) (ts : List Bytes) → 8 * length ts + 8 ≤ suc f
      → Takes P nodes_values
          (suc (length ts))
          (known P (nodes_values ns) args)
          (parse_nodes P (suc f) ns args ts)
  unfolding parse_nodes
  nodes_step f ih ns args ts h =
      Takes-test P nodes_values (suc (length ts)) _ (at_token (bytes ")") ts) _ _
        (λ b. (omega (arith, rest_short ts), refl))
        (λ b.
          Takes-after P nodes_values (suc (length ts)) (suc (length ts)) _ (comma_unless ns) _ ts
            (comma_unless-Fits ns ts)
            (λ us fewer.
              Takes-bind P node_values nodes_values (length us) (suc (length ts)) (known P [] args)
                _ (parse_primary_with P f args) _ us (ih.primary args us (omega (arith, h, fewer)))
                (λ arg later vs less e.
                  let all : known P (nodes_values ns) args
                      ≡ known P (nodes_values (add_node ns arg)) later =
                    joined P (nodes_values ns) (node_values arg) args later e
                    ∙ ap (λ new. known P new later) (sym (nodes_values-add_node ns arg)) in
                  Takes-from P nodes_values (suc (length ts)) _ _ _ all (
                    Takes-weaken P nodes_values (suc (length vs)) (suc (length ts)) _ _
                      (omega (arith, fewer, less))
                      (ih.nodes (add_node ns arg) later vs (omega (arith, h, fewer, less)))))))

  pub operands : (f : ℕ) → Operands f
  operands zero = record {
    primary = λ args ts h. absurd (omega (arith, h));
    call = λ name args ts h. absurd (omega (arith, h));
    nodes = λ ns args ts h. absurd (omega (arith, h));
  }
  operands (suc f) = record {
    primary = primary_step f (operands f);
    call = call_step f (operands f);
    nodes = nodes_step f (operands f);
  }

  right_of :
      (f : ℕ) (left : Node) (args : List GoValue) (ts : List Bytes) (o : Option CompareOp)
      → 8 * length ts + 8 ≤ f
      → Takes P node_values (suc (length ts)) (known P (node_values left) args) (elim o [
        | none ↦ ok ((left, args), ts)
        | some op ↦
            (do
              (right, later) ← parse_primary_with P f args
              pure (compare_node left op right, later))
              (rest_of ts)
      ])
  unfolding node_values
  right_of f left args ts none h = (omega arith, refl)
  right_of f left args ts (some op) h =
      Takes-bind P node_values node_values (length (rest_of ts)) (suc (length ts)) (known P [] args)
        _ (parse_primary_with P f args) _ (rest_of ts)
        ((operands f).primary args (rest_of ts) (omega (arith, h, rest_short ts)))
        (λ right later us fewer e. (
          omega (arith, fewer, rest_short ts),
          joined P (node_values left) (node_values right) args later e,
        ))

  pub right_ends :
      (f : ℕ) (left : Node) (args : List GoValue) (ts : List Bytes)
      → 8 * length ts + 8 ≤ f
      → Takes P node_values
          (suc (length ts))
          (known P (node_values left) args)
          (parse_right P f left args ts)
  unfolding parse_right
  right_ends f left args ts h = right_of f left args ts (compare_op_of (peek ts)) h
