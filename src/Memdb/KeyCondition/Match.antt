-- ===== src/Memdb/KeyCondition/Match.antt =====
-- memdb/memdb.go: compareKeyValues and matchesSortKeyCondition.
use dynago.Prelude.{
  Bool, true, false, ◌&&◌, Option, none, some, Ordering, ◌≟◌, compare_bytes, has_prefix,
}
use dynago.Attribute.{AttributeValue, Item, type_s, type_n, type_b}
use dynago.Attribute.Items.{get_attr}
use dynago.Expr.Ast.{CompareOp}
use dynago.Expr.Floats.{FloatOps}
use dynago.Expr.Eval.{compare_floats, holds}
use dynago.Memdb.Schema.{KeyDef}
use dynago.Memdb.Keys.{key_string}
use dynago.Memdb.KeyCondition.Parse.{SortOp, SortKeyCondition}

-- compareKeyValues: values of different types, or of a type that is no key type, compare as equal;
-- the errors of parseFloat are dropped
unfoldable pub compare_key_values : FloatOps → AttributeValue → AttributeValue → Ordering
compare_key_values F (type_s a) (type_s b) = compare_bytes a b
compare_key_values F (type_n a) (type_n b) = compare_floats F (F.scan_float a).0 (F.scan_float b).0
compare_key_values F (type_b a) (type_b b) = compare_bytes a b
compare_key_values F _ _ = Ordering.eq

key_begins_with : AttributeValue → AttributeValue → Bool
key_begins_with (type_s a) (type_s prefix) = has_prefix a prefix
key_begins_with (type_b a) (type_b prefix) = has_prefix a prefix
key_begins_with _ _ = false

-- The switch of matchesSortKeyCondition.
matches : FloatOps → SortOp → AttributeValue → AttributeValue → AttributeValue → Bool
unfolding compare_key_values key_begins_with holds
matches F SortOp.eq av v v2 = key_string av ≟ key_string v
matches F SortOp.begins_with av v v2 = key_begins_with av v
matches F SortOp.lt av v v2 = holds CompareOp.lt (compare_key_values F av v)
matches F SortOp.le av v v2 = holds CompareOp.le (compare_key_values F av v)
matches F SortOp.gt av v v2 = holds CompareOp.gt (compare_key_values F av v)
matches F SortOp.ge av v v2 = holds CompareOp.ge (compare_key_values F av v)
matches F SortOp.between av v v2 =
    holds CompareOp.ge (compare_key_values F av v)
    && holds CompareOp.le (compare_key_values F av v2)
matches F SortOp.ne av v v2 = false

-- matchesSortKeyCondition
unfoldable pub matches_sort_key_condition :
    FloatOps → Item → SortKeyCondition → Option KeyDef → Bool
unfolding matches
matches_sort_key_condition F item cond none = true
matches_sort_key_condition F item cond (some def) = elim (get_attr cond.attr item) [
  | none ↦ false
  | some av ↦ matches F cond.op av cond.value cond.value2
]
