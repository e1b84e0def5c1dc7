-- ===== src/Memdb/Conditions/Operands.antt =====
-- memdb/expression.go: the fuel of parsePrimary, parseFuncCall and of the end of parseComparison.
use dynago.Prelude.{
  ℕ, zero, suc, ◌+◌, ◌*◌, ◌≤◌, List, [], ◌∷◌, Bytes, bytes, Option, none, some, lookup, length,
  Option-cases, inl, inr, ok, arith, split_on, to_lower,
}
use dynago.Attribute.Items.{get_attr}
use dynago.Expr.Ast.{CompareOp, Node, Nodes, compare_node, no_nodes, path_node}
use dynago.Memdb.Parsing.{Placeholders, pure, ◌>>=◌, peek, rest_of, expect, at_keyword, at_token}
use dynago.Memdb.Conditions.{
  parse_primary, parse_func_call, parse_args, parse_in, parse_tail, start_of, separator,
  is_known_function, append_node, is_empty, is_first, parse_compare_op,
}
use dynago.Memdb.Conditions.Fits.{
  Fits, syntax_error, Fits-weaken, Fits-bind, Fits-test, expect-Fits, separator-Fits, Start-cases,
  or_fail-Fits, rest_short, call_or_path,
}

module _ (p : Placeholders) where
  -- With this fuel the parsers of operands end, and take at least one token.
  pub record Operands (f : ℕ) : Type 0 where
    pub primary :
        (ts : List Bytes) → 8 * length ts + 1 ≤ f → Fits (length ts) (parse_primary p f ts)
    pub call :
        (name : Bytes) (ts : List Bytes)
        → 8 * length ts + 8 ≤ f
        → Fits (length ts) (parse_func_call p f name ts)
    pub args :
        (nodes : Nodes) (ts : List Bytes)
        → 8 * length ts + 8 ≤ f
        → Fits (suc (length ts)) (parse_args p f nodes ts)

  primary_step :
      (f : ℕ)
      → Operands f
      → (ts : List Bytes) → 8 * length ts + 1 ≤ suc f
      → Fits (length ts) (parse_primary p (suc f) ts)
  unfolding parse_primary start_of
  primary_step f ih [] h = syntax_error
  primary_step f ih (t ∷ ts) h =
      let called = λ (name : Bytes). ih.call name ts (omega (arith, h)) in
      elim (Start-cases (start_of t)) [
        | inl e ↦ rw (e, parse_primary) syntax_error
        | inr (inl e) ↦ rw (e, parse_primary) (or_fail-Fits (get_attr t p.values) ts)
        | inr (inr (inl e)) ↦ elim (Option-cases (lookup t p.names)) [
          | inl absent ↦ rw (e, absent, parse_primary) syntax_error
          | inr (resolved, present) ↦
              rw (e, present, parse_primary)
                (call_or_path _ (path_node (split_on b'.' resolved)) ts (called resolved))
        ]
        | inr (inr (inr (inl e))) ↦
            rw (e, parse_primary)
              (Fits-test (suc (length ts)) (is_known_function (to_lower t)) _ _
                (λ known. call_or_path _ (path_node (split_on b'.' t)) ts (called t))
                (λ unknown. omega arith))
        | inr (inr (inr (inr e))) ↦ rw (e, parse_primary) syntax_error
      ]

  call_step :
      (f : ℕ)
      → Operands f
      → (name : Bytes) (ts : List Bytes) → 8 * length ts + 8 ≤ suc f
      → Fits (length ts) (parse_func_call p (suc f) name ts)
  unfolding parse_func_call
  call_step f ih name ts h =
      Fits-bind (length ts) (length ts) (expect (bytes "(")) _ ts (expect-Fits (bytes "(") ts)
        (λ a us fewer.
          Fits-bind (suc (length us)) (length ts) (parse_args p f no_nodes) _ us
            (ih.args no_nodes us (omega (arith, h, fewer)))
            (λ ns vs less. omega (arith, fewer, less)))

  args_step :
      (f : ℕ)
      → Operands f
      → (nodes : Nodes) (ts : List Bytes) → 8 * length ts + 8 ≤ suc f
      → Fits (suc (length ts)) (parse_args p (suc f) nodes ts)
  unfolding parse_args
  args_step f ih nodes ts h =
      Fits-test (suc (length ts)) (at_token (bytes ")") ts) _ _ (λ e. omega (arith, rest_short ts))
        (λ e.
          Fits-bind (suc (length ts)) (suc (length ts)) (separator (is_empty nodes)) _ ts
            (separator-Fits (is_empty nodes) ts)
            (λ a us fewer.
              Fits-bind (length us) (suc (length ts)) (parse_primary p f) _ us
                (ih.primary us (omega (arith, h, fewer)))
                (λ arg vs less.
                  Fits-weaken (suc (length vs)) (suc (length ts)) _ (omega (arith, fewer, less))
                    (ih.args (append_node nodes arg) vs (omega (arith, h, fewer, less))))))

  pub operands : (f : ℕ) → Operands f
  operands zero = record {
    primary = λ ts h. absurd (omega (arith, h));
    call = λ name ts h. absurd (omega (arith, h));
    args = λ nodes ts h. absurd (omega (arith, h));
  }
  operands (suc f) = record {
    primary = primary_step f (operands f);
    call = call_step f (operands f);
    args = args_step f (operands f);
  }

  in_ends :
      (f : ℕ) (left : Node) (built : Option Node) (ts : List Bytes)
      → 8 * length ts + 8 ≤ f
      → Fits (suc (length ts)) (parse_in p f left built ts)
  unfolding parse_in
  in_ends zero left built ts h = absurd (omega (arith, h))
  in_ends (suc f) left built ts h =
      Fits-test (suc (length ts)) (at_token (bytes ")") ts) _ _ (λ e. omega (arith, rest_short ts))
        (λ e.
          Fits-bind (suc (length ts)) (suc (length ts)) (separator (is_first built)) _ ts
            (separator-Fits (is_first built) ts)
            (λ a us fewer.
              Fits-bind (length us) (suc (length ts)) (parse_primary p f) _ us
                ((operands f).primary us (omega (arith, h, fewer)))
                (λ val vs less.
                  Fits-weaken (suc (length vs)) (suc (length ts)) _ (omega (arith, fewer, less))
                    (in_ends f left _ vs (omega (arith, h, fewer, less))))))

  compare_ends :
      (f : ℕ) (left : Node) (ts : List Bytes) (o : Option CompareOp)
      → 8 * length ts + 8 ≤ f
      → Fits {A = Node} (suc (length ts)) (elim o [
        | none ↦ ok (left, ts)
        | some op ↦ (do right ← parse_primary p f; pure (compare_node left op right)) (rest_of ts)
      ])
  compare_ends f left ts none h = omega arith
  compare_ends f left ts (some op) h =
      Fits-bind (length (rest_of ts)) (suc (length ts)) (parse_primary p f) _ (rest_of ts)
        ((operands f).primary (rest_of ts) (omega (arith, h, rest_short ts)))
        (λ right us fewer. omega (arith, fewer, rest_short ts))

  pub tail_ends :
      (f : ℕ) (left : Node) (ts : List Bytes)
      → 8 * length ts + 8 ≤ f
      → Fits (suc (length ts)) (parse_tail p f left ts)
  unfolding parse_tail
  tail_ends f left ts h =
      Fits-test (suc (length ts)) (at_keyword (bytes "BETWEEN") ts) _ _
        (λ e.
          Fits-bind (length (rest_of ts)) (suc (length ts)) (parse_primary p f) _ (rest_of ts)
            ((operands f).primary (rest_of ts) (omega (arith, h, rest_short ts)))
            (λ low us fewer.
              Fits-test (suc (length ts)) (at_keyword (bytes "AND") us) _ _
                (λ and.
                  Fits-bind (length (rest_of us)) (suc (length ts)) (parse_primary p f) _
                    (rest_of us)
                    ((operands f).primary (rest_of us)
                      (omega (arith, h, fewer, rest_short ts, rest_short us)))
                    (λ high vs less. omega (arith, fewer, less, rest_short ts, rest_short us)))
                (λ other. syntax_error)))
        (λ e.
          Fits-test (suc (length ts)) (at_keyword (bytes "IN") ts) _ _
            (λ in_list.
              Fits-bind (length (rest_of ts)) (suc (length ts)) (expect (bytes "(")) _ (rest_of ts)
                (expect-Fits (bytes "(") (rest_of ts))
                (λ a us fewer.
                  Fits-weaken (suc (length us)) (suc (length ts)) _
                    (omega (arith, fewer, rest_short ts))
                    (in_ends f left none us (omega (arith, h, fewer, rest_short ts)))))
            (λ other. compare_ends f left ts (parse_compare_op (peek ts)) h))
