-- ===== src/Memdb/Updates/Apply.antt =====
-- memdb/expression.go: evalUpdateNodes.
use dynago.Prelude.{
  List, [], ◌∷◌, Bytes, Option, none, some, Result, ok, err, expression, panic, ◌>>=◌,
}
use dynago.Attribute.{AttributeValue, Item, type_n, type_ss, type_ns, deep_copy_item}
use dynago.Expr.Ast.{UpdateAction}
use dynago.Expr.Floats.{FloatOps}
use dynago.Expr.Paths.{resolve_path_value}
use dynago.Memdb.Updates.Changes.{
  set_nested_path, remove_nested_path, add_to_string_set, remove_from_string_set,
}
use dynago.Memdb.Updates.Values.{UpdateValue, resolve_value, add_numbers}
use dynago.Memdb.Updates.Parse.{UpdateOp}

-- op.value.resolveValue; a nil value is a nil dereference
value_of : FloatOps → Option UpdateValue → Item → Result AttributeValue
value_of F none item = err panic
value_of F (some v) item = resolve_value F v item

-- What ADD writes, from what the path holds and the operand.
added : FloatOps → Option AttributeValue → AttributeValue → Result AttributeValue
unfolding add_to_string_set
added F none val = ok val
added F (some (type_n a)) (type_n b) = do sum ← add_numbers F a b; ok (type_n sum)
added F (some (type_ss a)) (type_ss b) = ok (type_ss (add_to_string_set a b))
added F (some (type_ns a)) (type_ns b) = ok (type_ns (add_to_string_set a b))
added F (some _) _ = err expression

-- What DELETE writes; none if it writes nothing.
deleted : Option AttributeValue → AttributeValue → Option AttributeValue
unfolding remove_from_string_set
deleted (some (type_ss a)) (type_ss b) = some (type_ss (remove_from_string_set a b))
deleted (some (type_ns a)) (type_ns b) = some (type_ns (remove_from_string_set a b))
deleted _ _ = none

write_deleted : List Bytes → Option AttributeValue → Item → Result Item
unfolding set_nested_path
write_deleted path none item = ok item
write_deleted path (some v) item = set_nested_path path v item

-- One round of the loop, for an operation with its path and value.
unfoldable pub apply_op :
    FloatOps → UpdateAction → List Bytes → Option UpdateValue → Item → Result Item
unfolding value_of added deleted write_deleted remove_nested_path
apply_op F UpdateAction.set path value item = do
  val ← value_of F value item
  set_nested_path path val item
apply_op F UpdateAction.add path value item = do
  val ← value_of F value item
  v ← added F (resolve_path_value path item) val
  set_nested_path path v item
apply_op F UpdateAction.remove path value item = remove_nested_path path item
apply_op F UpdateAction.delete path value item = do
  val ← value_of F value item
  write_deleted path (deleted (resolve_path_value path item) val) item

apply_ops : FloatOps → List UpdateOp → Item → Result Item
unfolding apply_op
apply_ops F [] item = ok item
apply_ops F (op ∷ ops) item = do
  next ← apply_op F op.action op.path op.value item
  apply_ops F ops next

-- evalUpdateNodes
unfoldable pub eval_update_nodes : FloatOps → List UpdateOp → Item → Result Item
unfolding apply_ops
eval_update_nodes F ops item = apply_ops F ops (deep_copy_item item)
