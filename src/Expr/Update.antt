-- ===== src/Expr/Update.antt =====
-- internal/expr/eval_update.go: EvalUpdate. Its copies of maps keep the caller's item as it is, which
-- an item of the model is anyway.
use dynago.Prelude.{
  ℕ, true, false, not, List, [], ◌∷◌, ◌++◌, Bytes, Option, none, some, keep, Error, Result, ok, err,
  panic, ◌>>=◌,
}
use dynago.Attribute.{AttributeValue, Item, no_attrs, type_m, type_n, type_ss, type_ns, type_bs}
use dynago.Attribute.Items.{get_attr, set_attr, delete_attr}
use dynago.Expr.Ast.{Node, nil, update_node, UpdateAction, set, add, remove, delete}
use dynago.Expr.Floats.{FloatOps}
use dynago.Expr.Paths.{resolve_path_value}
use dynago.Expr.Eval.{resolve_node, set_has}

-- setNestedPath, on the path's first part and the parts behind it
unfoldable pub set_checked : Bytes → List Bytes → AttributeValue → Item → Result Item
set_checked part [] val item = ok (set_attr part val item)
set_checked part (next ∷ parts) val item = elim (get_attr part item) [
  | none ↦ do inner ← set_checked next parts val no_attrs; ok (set_attr part (type_m inner) item)
  | some (type_m m) ↦ do
    inner ← set_checked next parts val m
    ok (set_attr part (type_m inner) item)
  | _ ↦ err Error.expression
]

-- parts[0] is out of range for an empty path
unfoldable pub set_checked_path : List Bytes → AttributeValue → Item → Result Item
unfolding set_checked
set_checked_path [] val item = err panic
set_checked_path (part ∷ parts) val item = set_checked part parts val item

-- removeNestedPath
unfoldable pub remove_checked : Bytes → List Bytes → Item → Item
remove_checked part [] item = delete_attr part item
remove_checked part (next ∷ parts) item = elim (get_attr part item) [
  | some (type_m m) ↦ set_attr part (type_m (remove_checked next parts m)) item
  | _ ↦ item
]

-- applyRemove
unfoldable pub apply_remove : List Bytes → Item → Result Item
unfolding remove_checked
apply_remove [] item = err panic
apply_remove (part ∷ parts) item = ok (remove_checked part parts item)

-- addToStringSet: the loop over `add`, with the keys of the map `set`
unfoldable pub union_from : List Bytes → List Bytes → List Bytes → List Bytes
unfolding set_has
union_from members result [] = result
union_from members result (s ∷ more) = elim (set_has members s) [
  | true ↦ union_from members result more
  | false ↦ union_from (s ∷ members) (result ++ s ∷ []) more
]

unfoldable pub union_set : List Bytes → List Bytes → List Bytes
unfolding union_from
union_set existing more = union_from existing existing more

-- removeFromStringSet and removeFromBinarySet
unfoldable pub subtract_set : List Bytes → List Bytes → List Bytes
unfolding set_has
subtract_set existing gone = keep (λ s. not (set_has gone s)) existing

-- addToBinarySet, which compares with the existing elements only
unfoldable pub union_binary : List Bytes → List Bytes → List Bytes
unfolding set_has
union_binary existing more = existing ++ keep (λ b. not (set_has existing b)) more

-- A value of SET, ADD or DELETE: nil, an error and nothing found are errors.
unfoldable pub operand : Node → Item → Result AttributeValue
operand nil item = err Error.expression
operand n item = do
  found ← resolve_node n item
  elim found [ none ↦ err Error.expression | some val ↦ ok val ]

parsed : Option ℕ → Result ℕ
parsed none = err Error.expression
parsed (some f) = ok f

-- `format_f` is strconv.FormatFloat(f, 'f', -1, 64).
module _ (F : FloatOps) (format_f : ℕ → Bytes) where
  -- The value that ADD stores where there is one already.
  unfoldable pub sum_value : AttributeValue → AttributeValue → Result AttributeValue
  unfolding union_set union_binary parsed
  sum_value (type_n a) (type_n b) = do
    ef ← parsed (F.parse_float a)
    vf ← parsed (F.parse_float b)
    ok (type_n (format_f (F.plus ef vf)))
  sum_value (type_ss a) (type_ss b) = ok (type_ss (union_set a b))
  sum_value (type_ns a) (type_ns b) = ok (type_ns (union_set a b))
  sum_value (type_bs a) (type_bs b) = ok (type_bs (union_binary a b))
  sum_value _ _ = err Error.expression

  -- applyAdd
  unfoldable pub apply_add : List Bytes → AttributeValue → Item → Result Item
  unfolding sum_value set_checked_path
  apply_add parts val item = elim (resolve_path_value parts item) [
    | none ↦ set_checked_path parts val item
    | some existing ↦ do sum ← sum_value existing val; set_checked_path parts sum item
  ]

  difference_value : AttributeValue → AttributeValue → Result AttributeValue
  unfolding subtract_set
  difference_value (type_ss a) (type_ss b) = ok (type_ss (subtract_set a b))
  difference_value (type_ns a) (type_ns b) = ok (type_ns (subtract_set a b))
  difference_value (type_bs a) (type_bs b) = ok (type_bs (subtract_set a b))
  difference_value _ _ = err Error.expression

  -- applyDelete
  unfoldable pub apply_delete : List Bytes → AttributeValue → Item → Result Item
  unfolding difference_value set_checked_path
  apply_delete parts val item = elim (resolve_path_value parts item) [
    | none ↦ ok item
    | some existing ↦ do
      difference ← difference_value existing val
      set_checked_path parts difference item
  ]

  -- applySet and the others, by the action
  unfoldable pub apply_update : UpdateAction → List Bytes → Node → Item → Result Item
  unfolding operand set_checked_path apply_add apply_remove apply_delete
  apply_update set parts value item = do val ← operand value item; set_checked_path parts val item
  apply_update add parts value item = do val ← operand value item; apply_add parts val item
  apply_update remove parts value item = apply_remove parts item
  apply_update delete parts value item = do val ← operand value item; apply_delete parts val item

  update_by : Node → Item → Result Item
  unfolding apply_update
  update_by (update_node action parts value) item = apply_update action parts value item
  update_by _ item = err Error.expression

  -- EvalUpdate
  unfoldable pub eval_update : List Node → Item → Result Item
  unfolding update_by
  eval_update [] item = ok item
  eval_update (n ∷ nodes) item = do next ← update_by n item; eval_update nodes next
