-- ===== src/Memdb/Updates/Values.antt =====
-- memdb/expression.go: updateValue and its implementations, with the number helpers.
use dynago.Prelude.{
  ℕ, List, Bytes, bytes, Option, none, some, ◌≟◌, if◌then◌else◌, Result, ok, err, expression, ◌>>=◌,
}
use dynago.Attribute.{AttributeValue, Item, type_n, type_l}
use dynago.Attribute.Items.{append_values}
use dynago.Expr.Floats.{FloatOps}
use dynago.Expr.Paths.{resolve_path_value}

pub data UpdateValue : Type 0 where
  literal_value : AttributeValue → UpdateValue
  path_value : List Bytes → UpdateValue
  arithmetic_value : UpdateValue → Bytes → UpdateValue → UpdateValue
  if_not_exists_value : List Bytes → UpdateValue → UpdateValue
  list_append_value : UpdateValue → UpdateValue → UpdateValue

module _ (F : FloatOps) where
  -- formatFloat
  format_float : ℕ → Bytes
  format_float f = if F.is_integral f then F.print_int f else F.print_g f

  -- parseFloat
  parse_float : Bytes → Result ℕ
  parse_float s = let (f, fine) = F.scan_float s in if fine then ok f else err expression

  -- addNumbers, subtractNumbers
  unfoldable pub add_numbers : Bytes → Bytes → Result Bytes
  unfolding format_float parse_float
  add_numbers a b = do af ← parse_float a; bf ← parse_float b; ok (format_float (F.plus af bf))

  unfoldable pub subtract_numbers : Bytes → Bytes → Result Bytes
  unfolding format_float parse_float
  subtract_numbers a b = do
    af ← parse_float a
    bf ← parse_float b
    ok (format_float (F.minus af bf))

-- arithmeticValue, once both sides are resolved
arithmetic : FloatOps → Bytes → AttributeValue → AttributeValue → Result AttributeValue
unfolding add_numbers subtract_numbers
arithmetic F op (type_n a) (type_n b) =
    if op ≟ bytes "+"
    then (do n ← add_numbers F a b; ok (type_n n))
    else if op ≟ bytes "-"
    then (do n ← subtract_numbers F a b; ok (type_n n))
    else err expression
arithmetic F op _ _ = err expression

list_append : AttributeValue → AttributeValue → Result AttributeValue
list_append (type_l xs) (type_l ys) = ok (type_l (append_values xs ys))
list_append _ _ = err expression

or_missing : Option AttributeValue → Result AttributeValue
or_missing none = err expression
or_missing (some v) = ok v

-- resolveValue
unfoldable pub resolve_value : FloatOps → UpdateValue → Item → Result AttributeValue
unfolding arithmetic list_append or_missing
resolve_value F (literal_value v) item = ok v
resolve_value F (path_value parts) item = or_missing (resolve_path_value parts item)
resolve_value F (arithmetic_value left op right) item = do
  l ← resolve_value F left item
  r ← resolve_value F right item
  arithmetic F op l r
resolve_value F (if_not_exists_value path default_val) item =
    let fallback = resolve_value F default_val item in
    elim (resolve_path_value path item) [ none ↦ fallback | some av ↦ ok av ]
resolve_value F (list_append_value left right) item = do
  l ← resolve_value F left item
  r ← resolve_value F right item
  list_append l r
