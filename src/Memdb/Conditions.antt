-- ===== src/Memdb/Conditions.antt =====
-- memdb/expression.go: exprParser, parseExpressionToAST and evalCondition. The recursion of the
-- parser takes fuel; `enough_fuel` is what parseExpressionToAST hands out.
pub mod Fits
mod Operands
pub mod Fuel
use dynago.Prelude.{
  ℕ, zero, suc, ◌+◌, ◌*◌, Bool, true, false, ◌||◌, List, [], ◌∷◌, Bytes, bytes, Option, none, some,
  ◌==◌, ◌≟◌, lookup, split_on, to_lower, length, if◌then◌else◌, Error, Result, ok, err, expression,
  out_of_fuel,
}
use dynago.Prelude
use dynago.Attribute.{AttributeValue, Item, type_s}
use dynago.Attribute.Items.{get_attr}
use dynago.Expr.Ast.{
  CompareOp, LogicalOp, Node, Nodes, nil, compare_node, logical_node, func_node, path_node,
  value_node, no_nodes, node,
}
use dynago.Expr.Floats.{FloatOps}
use dynago.Expr.Eval.{eval}
use dynago.Memdb.Tokens.{tokenize_expr, is_ident_start}
use dynago.Memdb.Parsing.{
  Parser, Placeholders, pure, fail, ◌>>=◌, ◌>>◌, peek, rest_of, expect, at_keyword, at_token,
}

parse_compare_op : Bytes → Option CompareOp
parse_compare_op tok =
    if tok ≟ bytes "="
    then some CompareOp.eq
    else if tok ≟ bytes "<>"
    then some CompareOp.ne
    else if tok ≟ bytes "<"
    then some CompareOp.lt
    else if tok ≟ bytes "<="
    then some CompareOp.le
    else if tok ≟ bytes ">"
    then some CompareOp.gt
    else if tok ≟ bytes ">="
    then some CompareOp.ge
    else none

append_node : Nodes → Node → Nodes
append_node no_nodes n = node n no_nodes
append_node (node m ms) n = node m (append_node ms n)

-- The names that parsePrimary reads as functions.
is_known_function : Bytes → Bool
is_known_function lower =
    lower ≟ bytes "attribute_exists"
    || lower ≟ bytes "attribute_not_exists"
    || lower ≟ bytes "begins_with"
    || lower ≟ bytes "contains"
    || lower ≟ bytes "size"
    || lower ≟ bytes "attribute_type"

-- How a primary expression starts.
pub data Start : Type 0 where
  at_end at_value at_name at_ident at_other : Start

start_of : Bytes → Start
unfolding is_ident_start
start_of [] = at_end
start_of (c ∷ tok) =
    if c == b':'
    then at_value
    else if c == b'#'
    then at_name
    else if is_ident_start c
    then at_ident
    else at_other

pub or_fail : Option AttributeValue → Parser Node
or_fail none = fail
or_fail (some v) = pure (value_node v)

between : Node → Node → Node → Node
between left low high =
    logical_node LogicalOp.and (compare_node left CompareOp.ge low)
      (compare_node left CompareOp.le high)

-- What IN has built so far, with one more alternative.
in_case : Option Node → Node → Node
in_case none c = c
in_case (some n) c = logical_node LogicalOp.or n c

-- An empty IN list compares "" with "" for inequality.
in_result : Option Node → Node
in_result none = compare_node (value_node (type_s [])) CompareOp.ne (value_node (type_s []))
in_result (some n) = n

pub separator : Bool → Parser (Unit {0})
separator true = pure tt
separator false = expect (bytes ",")

is_empty : Nodes → Bool
is_empty no_nodes = true
is_empty (node n ns) = false

is_first : Option Node → Bool
is_first none = true
is_first (some n) = false

module _ (p : Placeholders) where
  -- parsePrimary, parseFuncCall and its loop
  mutual
    unfolding is_known_function start_of or_fail separator is_empty append_node

    pub parse_primary : ℕ → Parser Node
    parse_primary zero ts = err out_of_fuel
    parse_primary (suc f) ts =
        let tok = peek ts in
        let call = λ (name : Bytes). parse_func_call f name in
        elim (start_of tok) [
          | at_end ↦ err expression
          | at_value ↦ or_fail (get_attr tok p.values) (rest_of ts)
          | at_name ↦ elim (lookup tok p.names) [
            | none ↦ err expression
            | some resolved ↦
                if at_token (bytes "(") (rest_of ts)
                then call resolved (rest_of ts)
                else ok (path_node (split_on b'.' resolved), rest_of ts)
          ]
          | at_ident ↦
              if is_known_function (to_lower tok)
              then (if at_token (bytes "(") (rest_of ts)
                  then call tok (rest_of ts)
                  else ok (path_node (split_on b'.' tok), rest_of ts))
              else ok (path_node (split_on b'.' tok), rest_of ts)
          | at_other ↦ err expression
        ]

    pub parse_func_call : ℕ → Bytes → Parser Node
    parse_func_call zero name ts = err out_of_fuel
    parse_func_call (suc f) name ts =
        (do expect (bytes "("); args ← parse_args f no_nodes; pure (func_node (to_lower name) args))
          ts

    pub parse_args : ℕ → Nodes → Parser Nodes
    parse_args zero args ts = err out_of_fuel
    parse_args (suc f) args ts =
        let more = λ (us : List Bytes).
          (do separator (is_empty args); arg ← parse_primary f; parse_args f (append_node args arg))
            us in
        if at_token (bytes ")") ts then ok (args, rest_of ts) else more ts

  -- The loop of IN, up to and with the closing bracket.
  parse_in : ℕ → Node → Option Node → Parser Node
  unfolding separator is_first in_case in_result
  parse_in zero left built ts = err out_of_fuel
  parse_in (suc f) left built ts =
      let more = λ (us : List Bytes).
        (do
          separator (is_first built)
          val ← parse_primary f
          parse_in f left (some (in_case built (compare_node left CompareOp.eq val))))
          us in
      if at_token (bytes ")") ts then ok (in_result built, rest_of ts) else more ts

  -- parseComparison after its left operand.
  pub parse_tail : ℕ → Node → Parser Node
  unfolding parse_in parse_compare_op between
  parse_tail f left ts =
      if at_keyword (bytes "BETWEEN") ts
      then (do
        low ← parse_primary f
        λ us.
            if at_keyword (bytes "AND") us
            then (do high ← parse_primary f; pure (between left low high)) (rest_of us)
            else err expression)
          (rest_of ts)
      else if at_keyword (bytes "IN") ts
      then (do expect (bytes "("); parse_in f left none) (rest_of ts)
      else elim (parse_compare_op (peek ts)) [
        | none ↦ ok (left, ts)
        | some op ↦ (do right ← parse_primary f; pure (compare_node left op right)) (rest_of ts)
      ]

  mutual
    unfolding parse_tail

    parse_or : ℕ → Parser Node
    parse_or zero ts = err out_of_fuel
    parse_or (suc f) ts = (do left ← parse_and f; or_loop f left) ts

    or_loop : ℕ → Node → Parser Node
    or_loop zero left ts = err out_of_fuel
    or_loop (suc f) left ts =
        let more = λ (us : List Bytes).
          (do right ← parse_and f; or_loop f (logical_node LogicalOp.or left right)) us in
        if at_keyword (bytes "OR") ts then more (rest_of ts) else ok (left, ts)

    parse_and : ℕ → Parser Node
    parse_and zero ts = err out_of_fuel
    parse_and (suc f) ts = (do left ← parse_not f; and_loop f left) ts

    and_loop : ℕ → Node → Parser Node
    and_loop zero left ts = err out_of_fuel
    and_loop (suc f) left ts =
        let more = λ (us : List Bytes).
          (do right ← parse_not f; and_loop f (logical_node LogicalOp.and left right)) us in
        if at_keyword (bytes "AND") ts then more (rest_of ts) else ok (left, ts)

    parse_not : ℕ → Parser Node
    parse_not zero ts = err out_of_fuel
    parse_not (suc f) ts =
        let negated = λ (us : List Bytes).
          (do operand ← parse_not f; pure (logical_node LogicalOp.not operand nil)) us in
        let plain = λ (us : List Bytes). parse_comparison f us in
        if at_keyword (bytes "NOT") ts then negated (rest_of ts) else plain ts

    parse_comparison : ℕ → Parser Node
    parse_comparison zero ts = err out_of_fuel
    parse_comparison (suc f) ts =
        let grouped =
          λ (us : List Bytes). (do inner ← parse_or f; expect (bytes ")"); pure inner) us in
        if at_token (bytes "(") ts
        then grouped (rest_of ts)
        else (do left ← parse_primary f; parse_tail f left) ts

-- Enough for any input of that many tokens.
abbrev enough_fuel : List Bytes → ℕ
enough_fuel ts = 8 * length ts + 8

whole : Result (Node × List Bytes) → Result Node
whole (ok (n, [])) = ok n
whole (ok (n, t ∷ ts)) = err expression
whole (err e) = err e

-- parseExpressionToAST
unfoldable pub parse_expression_to_ast : Placeholders → Bytes → Result Node
unfolding parse_or parse_primary whole tokenize_expr
parse_expression_to_ast p text =
    let ts = tokenize_expr text in whole (parse_or p (enough_fuel ts) ts)

-- evalCondition
unfoldable pub eval_condition : FloatOps → Bytes → Placeholders → Item → Result Bool
unfolding parse_expression_to_ast eval
eval_condition F [] p item = ok true
eval_condition F (c ∷ text) p item =
    Prelude.◌>>=◌ (parse_expression_to_ast p (c ∷ text)) (λ n. eval F n item)
