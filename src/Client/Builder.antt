-- ===== src/Client/Builder.antt =====
-- internal/expr/builder.go: ParseCondition and the updates that are built. The state of the parser
-- is the arguments from argIdx on and the tokens from pos on. Its recursion takes fuel, and
-- `fuel_for` is what ParseCondition hands out.
pub mod Takes
mod Operands
pub mod Arguments
use dynago.Prelude.{
  ℕ, zero, suc, ◌-◌, ◌+◌, ◌*◌, Bool, true, false, ◌||◌, ◌&&◌, List, [], ◌∷◌, Bytes, bytes, Option,
  none, some, ◌==◌, ◌≟◌, take, split_on, length, if◌then◌else◌, Result, ok, err, expression,
  out_of_fuel,
}
use dynago.Prelude
use dynago.Expr.Ast.{
  CompareOp, LogicalOp, UpdateAction, Node, Nodes, nil, compare_node, logical_node, func_node,
  path_node, value_node, update_node, no_nodes, node,
}
use dynago.Client.Values.{GoValue, Printers, go_to_attribute_value}
use dynago.Memdb.Tokens.{is_ident_start, is_ident_part, is_digit, is_space, is_two, span}
use dynago.Memdb.Parsing.{Parser, pure, ◌>>=◌, ◌>>◌, peek, rest_of, expect, at_keyword, at_token}

is_symbol : ℕ → Bool
is_symbol ch =
    ch == b'?' || ch == b'(' || ch == b')' || ch == b',' || ch == b'=' || ch == b'<' || ch == b'>'

-- The length of the token that starts at `ch`, with `s` behind it; none if `ch` is skipped.
length_of_token : ℕ → Bytes → Option ℕ
unfolding is_ident_part is_space is_symbol is_two span
length_of_token ch s =
    if is_space ch
    then none
    else if is_two ch s
    then some 2
    else if is_symbol ch
    then some 1
    else if is_ident_start ch || ch == b'#'
    then some (suc (span (λ c. is_ident_part c || c == b'.') s))
    else if is_digit ch
    then some (suc (span (λ c. is_digit c || c == b'.') s))
    else none

tokenize_from : ℕ → Bytes → List Bytes
unfolding length_of_token
tokenize_from passing [] = []
tokenize_from (suc passing) (ch ∷ s) = tokenize_from passing s
tokenize_from zero (ch ∷ s) = elim (length_of_token ch s) [
  | none ↦ tokenize_from zero s
  | some n ↦ take n (ch ∷ s) ∷ tokenize_from (n - 1) s
]

-- tokenize
unfoldable pub tokenize : Bytes → List Bytes
unfolding tokenize_from
tokenize s = tokenize_from zero s

-- strings.TrimPrefix(s, "#")
without_mark : Bytes → Bytes
without_mark [] = []
without_mark (c ∷ s) = if c == b'#' then s else c ∷ s

-- parsePathNode and parsePath
unfoldable pub path_parts : Bytes → List Bytes
unfolding without_mark
path_parts tok = split_on b'.' (without_mark tok)

-- parseCompareOp
unfoldable pub compare_op_of : Bytes → Option CompareOp
compare_op_of tok =
    if tok ≟ bytes "="
    then some CompareOp.eq
    else if tok ≟ bytes "<>"
    then some CompareOp.ne
    else if tok ≟ bytes "<"
    then some CompareOp.lt
    else if tok ≟ bytes "<="
    then some CompareOp.le
    else if tok ≟ bytes ">"
    then some CompareOp.gt
    else if tok ≟ bytes ">="
    then some CompareOp.ge
    else none

unfoldable pub add_node : Nodes → Node → Nodes
add_node no_nodes n = node n no_nodes
add_node (node m ms) n = node m (add_node ms n)

unfoldable pub comma_unless : Nodes → Parser (Unit {0})
comma_unless no_nodes = pure tt
comma_unless (node n ns) = expect (bytes ",")

-- How a primary starts: with a value placeholder, with a name, or not at all.
pub data PrimaryStart : Type 0 where
  at_argument at_name at_nothing : PrimaryStart

unfoldable pub primary_start : Bytes → PrimaryStart
unfolding is_ident_start
primary_start [] = at_nothing
primary_start (c ∷ tok) =
    if (c ∷ tok) ≟ bytes "?"
    then at_argument
    else if is_ident_start c || c == b'#'
    then at_name
    else at_nothing

module _ (P : Printers) where
  -- The next argument, as a value.
  unfoldable pub take_argument : List GoValue → Parser (Node × List GoValue)
  unfolding go_to_attribute_value
  take_argument [] ts = err expression
  take_argument (v ∷ vs) ts =
      Prelude.◌>>=◌ (go_to_attribute_value P v) (λ av. ok ((value_node av, vs), ts))

  -- parsePrimary, parseFuncCall and its loop
  unfoldable mutual
    unfolding primary_start take_argument path_parts comma_unless add_node

    pub parse_primary_with : ℕ → List GoValue → Parser (Node × List GoValue)
    parse_primary_with zero args ts = err out_of_fuel
    parse_primary_with (suc f) args ts =
        let call = parse_func_call_with f (peek ts) args (rest_of ts) in
        elim (primary_start (peek ts)) [
          | at_nothing ↦ err expression
          | at_argument ↦ take_argument args (rest_of ts)
          | at_name ↦
              if at_token (bytes "(") (rest_of ts)
              then call
              else ok ((path_node (path_parts (peek ts)), args), rest_of ts)
        ]

    pub parse_func_call_with : ℕ → Bytes → List GoValue → Parser (Node × List GoValue)
    parse_func_call_with zero name args ts = err out_of_fuel
    parse_func_call_with (suc f) name args ts =
        (do
          expect (bytes "(")
          (nodes, left) ← parse_nodes f no_nodes args
          pure (func_node name nodes, left))
          ts

    pub parse_nodes : ℕ → Nodes → List GoValue → Parser (Nodes × List GoValue)
    parse_nodes zero nodes args ts = err out_of_fuel
    parse_nodes (suc f) nodes args ts =
        let more = λ (us : List Bytes).
          (do
            comma_unless nodes
            (arg, left) ← parse_primary_with f args
            parse_nodes f (add_node nodes arg) left)
            us in
        if at_token (bytes ")") ts then ok ((nodes, args), rest_of ts) else more ts

  -- parseComparison after its left operand
  unfoldable pub parse_right : ℕ → Node → List GoValue → Parser (Node × List GoValue)
  unfolding compare_op_of parse_primary_with
  parse_right f left args ts = elim (compare_op_of (peek ts)) [
    | none ↦ ok ((left, args), ts)
    | some op ↦
        (do (right, later) ← parse_primary_with f args; pure (compare_node left op right, later))
          (rest_of ts)
  ]

  abbrev negated_with : Node → List GoValue → Node × List GoValue
  negated_with operand later = (logical_node LogicalOp.not operand nil, later)

  unfoldable mutual
    unfolding parse_right parse_primary_with

    pub parse_or_with : ℕ → List GoValue → Parser (Node × List GoValue)
    parse_or_with zero args ts = err out_of_fuel
    parse_or_with (suc f) args ts =
        (do (left, later) ← parse_and_with f args; or_loop_with f left later) ts

    pub or_loop_with : ℕ → Node → List GoValue → Parser (Node × List GoValue)
    or_loop_with zero left args ts = err out_of_fuel
    or_loop_with (suc f) left args ts =
        let more = λ (us : List Bytes).
          (do
            (right, later) ← parse_and_with f args
            or_loop_with f (logical_node LogicalOp.or left right) later)
            us in
        if at_keyword (bytes "OR") ts then more (rest_of ts) else ok ((left, args), ts)

    pub parse_and_with : ℕ → List GoValue → Parser (Node × List GoValue)
    parse_and_with zero args ts = err out_of_fuel
    parse_and_with (suc f) args ts =
        (do (left, later) ← parse_not_with f args; and_loop_with f left later) ts

    pub and_loop_with : ℕ → Node → List GoValue → Parser (Node × List GoValue)
    and_loop_with zero left args ts = err out_of_fuel
    and_loop_with (suc f) left args ts =
        let more = λ (us : List Bytes).
          (do
            (right, later) ← parse_not_with f args
            and_loop_with f (logical_node LogicalOp.and left right) later)
            us in
        if at_keyword (bytes "AND") ts then more (rest_of ts) else ok ((left, args), ts)

    pub parse_not_with : ℕ → List GoValue → Parser (Node × List GoValue)
    parse_not_with zero args ts = err out_of_fuel
    parse_not_with (suc f) args ts =
        let negated = λ (us : List Bytes).
          (do (operand, later) ← parse_not_with f args; pure (negated_with operand later)) us in
        let plain = λ (us : List Bytes). parse_comparison_with f args us in
        if at_keyword (bytes "NOT") ts then negated (rest_of ts) else plain ts

    pub parse_comparison_with : ℕ → List GoValue → Parser (Node × List GoValue)
    parse_comparison_with zero args ts = err out_of_fuel
    parse_comparison_with (suc f) args ts =
        let grouped = λ (us : List Bytes).
          (do inner ← parse_or_with f args; expect (bytes ")"); pure inner) us in
        if at_token (bytes "(") ts
        then grouped (rest_of ts)
        else (do (left, later) ← parse_primary_with f args; parse_right f left later) ts

  -- Enough for any input of that many tokens.
  abbrev pub fuel_for : List Bytes → ℕ
  fuel_for ts = 8 * length ts + 8

  unfoldable pub whole_with : Result ((Node × List GoValue) × List Bytes) → Result Node
  whole_with (ok ((n, []), [])) = ok n
  whole_with (ok ((n, args), ts)) = err expression
  whole_with (err e) = err e

  -- ParseCondition
  unfoldable pub parse_condition : Bytes → List GoValue → Result Node
  unfolding tokenize parse_or_with whole_with
  parse_condition text args =
      let ts = tokenize text in whole_with (parse_or_with (fuel_for ts) args ts)

  -- The update with an action on an attribute and a value.
  built_update : UpdateAction → Bytes → GoValue → Result Node
  unfolding path_parts go_to_attribute_value
  built_update action attr val =
      Prelude.◌>>=◌ (go_to_attribute_value P val)
        (λ av. ok (update_node action (path_parts attr) (value_node av)))

  -- BuildSet, BuildAdd, BuildDelete
  unfoldable pub build_set : Bytes → GoValue → Result Node
  unfolding built_update
  build_set attr val = built_update UpdateAction.set attr val

  unfoldable pub build_add : Bytes → GoValue → Result Node
  unfolding built_update
  build_add attr val = built_update UpdateAction.add attr val

  unfoldable pub build_delete : Bytes → GoValue → Result Node
  unfolding built_update
  build_delete attr val = built_update UpdateAction.delete attr val

-- BuildRemove
unfoldable pub build_remove : Bytes → Node
unfolding path_parts
build_remove attr = update_node UpdateAction.remove (path_parts attr) nil
