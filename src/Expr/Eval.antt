-- ===== src/Expr/Eval.antt =====
-- internal/expr/eval.go: conditions and filters against an item.
use dynago.Prelude.{
  ℕ, Bool, true, false, not, ◌&&◌, ◌||◌, List, [], ◌∷◌, Bytes, bytes, Option, none, some, Ordering,
  ◌≟◌, ◌==◌, compare_bytes, has_prefix, contains, size, length, ltb, if◌then◌else◌, Result, ok, err,
  expression, ◌>>=◌,
}
use dynago.Attribute.{
  AttributeValue, Values, Item, no_values, value, type_s, type_n, type_b, type_bool, type_l, type_m,
  type_ss, type_ns, type_bs, type_code,
}
use dynago.Attribute.Items.{count_attrs, count_values}
use dynago.Expr.Ast.{
  CompareOp, LogicalOp, Node, Nodes, compare_node, logical_node, func_node, path_node, value_node,
  no_nodes, node,
}
use dynago.Expr.Floats.{FloatOps, format_int}
use dynago.Expr.Paths.{resolve_path_value}

-- The struct's fields: the one that Type does not name is empty.
abbrev pub field_s : AttributeValue → Bytes
field_s (type_s s) = s
field_s _ = []

abbrev pub field_n : AttributeValue → Bytes
field_n (type_n s) = s
field_n _ = []

abbrev pub field_b : AttributeValue → Bytes
field_b (type_b s) = s
field_b _ = []

abbrev pub field_bool : AttributeValue → Bool
field_bool (type_bool b) = b
field_bool _ = false

module _ (F : FloatOps) where
  unfoldable pub compare_floats : ℕ → ℕ → Ordering
  compare_floats a b =
      if F.less a b then Ordering.lt else if F.less b a then Ordering.gt else Ordering.eq

  compare_numbers : Option ℕ → Option ℕ → Result Ordering
  unfolding compare_floats
  compare_numbers (some a) (some b) = ok (compare_floats a b)
  compare_numbers _ _ = err expression

compare_bools : Bool → Bool → Ordering
compare_bools true true = Ordering.eq
compare_bools false false = Ordering.eq
compare_bools false true = Ordering.lt
compare_bools true false = Ordering.gt

-- compareValues: -1, 0 or 1 as an `Ordering`
unfoldable pub compare_values : FloatOps → AttributeValue → AttributeValue → Result Ordering
unfolding compare_numbers compare_bools
compare_values F (type_s a) b = ok (compare_bytes a (field_s b))
compare_values F (type_n a) b = compare_numbers F (F.parse_float a) (F.parse_float (field_n b))
compare_values F (type_b a) b = ok (compare_bytes a (field_b b))
compare_values F (type_bool a) b = ok (compare_bools a (field_bool b))
compare_values F _ b = err expression

-- The switch of evalCompare.
unfoldable pub holds : CompareOp → Ordering → Bool
holds CompareOp.eq Ordering.eq = true
holds CompareOp.eq _ = false
holds CompareOp.ne Ordering.eq = false
holds CompareOp.ne _ = true
holds CompareOp.lt Ordering.lt = true
holds CompareOp.lt _ = false
holds CompareOp.le Ordering.gt = false
holds CompareOp.le _ = true
holds CompareOp.gt Ordering.gt = true
holds CompareOp.gt _ = false
holds CompareOp.ge Ordering.lt = false
holds CompareOp.ge _ = true

-- The switch of evalSize.
unfoldable pub size_of : AttributeValue → Result ℕ
size_of (type_s s) = ok (size s)
size_of (type_b s) = ok (size s)
size_of (type_l vs) = ok (count_values vs)
size_of (type_m m) = ok (count_attrs m)
size_of (type_ss ss) = ok (length ss)
size_of (type_ns ss) = ok (length ss)
size_of (type_bs ss) = ok (length ss)
size_of _ = err expression

size_or_zero : Option AttributeValue → Result ℕ
unfolding size_of
size_or_zero none = ok 0
size_or_zero (some v) = size_of v

-- resolveNode and evalSize; `ok none` is a path that the item does not have
unfoldable mutual
  unfolding size_or_zero

  pub resolve_node : Node → Item → Result (Option AttributeValue)
  resolve_node (path_node parts) item = ok (resolve_path_value parts item)
  resolve_node (value_node v) item = ok (some v)
  resolve_node (func_node name args) item =
      let sized = eval_size args item in
      if name ≟ bytes "size"
      then (do sz ← sized; ok (some (type_n (format_int sz))))
      else err expression
  resolve_node _ item = err expression

  pub eval_size : Nodes → Item → Result ℕ
  eval_size (node n no_nodes) item = do v ← resolve_node n item; size_or_zero v
  eval_size _ item = err expression

compare_found : FloatOps → CompareOp → Option AttributeValue → Option AttributeValue → Result Bool
compare_found F op (some left) (some right) =
    if type_code left == type_code right
    then (do c ← compare_values F left right; ok (holds op c))
    else ok false
compare_found F op _ _ = ok false

unfoldable pub eval_compare : FloatOps → Node → CompareOp → Node → Item → Result Bool
unfolding compare_found
eval_compare F left op right item = do
  l ← resolve_node left item
  r ← resolve_node right item
  compare_found F op l r

-- The one argument of attribute_exists and attribute_not_exists.
path_arg : Nodes → Result (List Bytes)
path_arg (node (path_node parts) no_nodes) = ok parts
path_arg _ = err expression

-- The two arguments of begins_with and contains.
two_args : Nodes → Item → Result (Option AttributeValue × Option AttributeValue)
two_args (node a (node b no_nodes)) item = do
  x ← resolve_node a item
  y ← resolve_node b item
  ok (x, y)
two_args _ item = err expression

unfoldable pub begins_with : Option AttributeValue → Option AttributeValue → Bool
begins_with (some (type_s s)) (some (type_s prefix)) = has_prefix s prefix
begins_with _ _ = false

-- The body of the loop over val.L.
same_element : FloatOps → AttributeValue → AttributeValue → Bool
same_element F elem operand =
    type_code elem == type_code operand && elim (compare_values F elem operand) [
      | ok c ↦ elim c [ Ordering.eq ↦ true | _ ↦ false ]
      | err e ↦ false
    ]

unfoldable pub list_has : FloatOps → Values → AttributeValue → Bool
unfolding same_element
list_has F no_values operand = false
list_has F (value elem vs) operand = same_element F elem operand || list_has F vs operand

unfoldable pub set_has : List Bytes → Bytes → Bool
set_has [] s = false
set_has (x ∷ xs) s = x ≟ s || set_has xs s

unfoldable pub contains_value : FloatOps → Option AttributeValue → Option AttributeValue → Bool
unfolding list_has set_has
contains_value F (some (type_s s)) (some (type_s sub)) = contains s sub
contains_value F (some (type_l vs)) (some operand) = list_has F vs operand
contains_value F (some (type_ss ss)) (some (type_s s)) = set_has ss s
contains_value F (some (type_ns ss)) (some (type_n s)) = set_has ss s
contains_value F _ _ = false

is_missing : Option AttributeValue → Bool
is_missing none = true
is_missing (some v) = false

unfoldable pub eval_func : FloatOps → Bytes → Nodes → Item → Result Bool
unfolding path_arg two_args is_missing
eval_func F name args item =
    if name ≟ bytes "attribute_exists"
    then (do parts ← path_arg args; ok (not (is_missing (resolve_path_value parts item))))
    else if name ≟ bytes "attribute_not_exists"
    then (do parts ← path_arg args; ok (is_missing (resolve_path_value parts item)))
    else if name ≟ bytes "begins_with"
    then (do (val, prefix) ← two_args args item; ok (begins_with val prefix))
    else if name ≟ bytes "contains"
    then (do (val, operand) ← two_args args item; ok (contains_value F val operand))
    else if name ≟ bytes "size"
    then (do sz ← eval_size args item; ok (ltb 0 sz))
    else err expression

-- Eval, with evalLogical; `and` and `or` do not look at the right side where the left decides.
unfoldable pub eval : FloatOps → Node → Item → Result Bool
eval F (compare_node l op r) item = eval_compare F l op r item
eval F (logical_node LogicalOp.and l r) item =
    let right = eval F r item in do left ← eval F l item; if left then right else ok false
eval F (logical_node LogicalOp.or l r) item =
    let right = eval F r item in do left ← eval F l item; if left then ok true else right
eval F (logical_node LogicalOp.not l r) item = do left ← eval F l item; ok (not left)
eval F (func_node name args) item = eval_func F name args item
eval F _ item = err expression
