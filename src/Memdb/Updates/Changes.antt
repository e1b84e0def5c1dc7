-- ===== src/Memdb/Updates/Changes.antt =====
-- memdb/expression.go: setNestedPath, removeNestedPath, addToStringSet, removeFromStringSet.
use dynago.Prelude.{
  not, List, [], ◌∷◌, ◌++◌, Bytes, none, some, keep, Result, ok, err, panic, true, false,
}
use dynago.Attribute.{AttributeValue, Item, no_attrs, type_m}
use dynago.Attribute.Items.{get_attr, set_attr, delete_attr}
use dynago.Expr.Eval.{set_has}

-- The path's first part and the parts behind it; nothing is written below a value that is no map.
unfoldable pub set_nested : Bytes → List Bytes → AttributeValue → Item → Item
set_nested part [] val item = set_attr part val item
set_nested part (next ∷ parts) val item = elim (get_attr part item) [
  | none ↦ set_attr part (type_m (set_nested next parts val no_attrs)) item
  | some (type_m m) ↦ set_attr part (type_m (set_nested next parts val m)) item
  | _ ↦ item
]

-- setNestedPath; parts[0] is out of range for an empty path
unfoldable pub set_nested_path : List Bytes → AttributeValue → Item → Result Item
unfolding set_nested
set_nested_path [] val item = err panic
set_nested_path (part ∷ parts) val item = ok (set_nested part parts val item)

unfoldable pub remove_nested : Bytes → List Bytes → Item → Item
remove_nested part [] item = delete_attr part item
remove_nested part (next ∷ parts) item = elim (get_attr part item) [
  | some (type_m m) ↦ set_attr part (type_m (remove_nested next parts m)) item
  | _ ↦ item
]

-- removeNestedPath
unfoldable pub remove_nested_path : List Bytes → Item → Result Item
unfolding remove_nested
remove_nested_path [] item = err panic
remove_nested_path (part ∷ parts) item = ok (remove_nested part parts item)

-- addToStringSet: the loop over `add`; the map `set` holds what `result` holds
-- The loop of addToStringSet, with the map `set` as the list of its keys.
unfoldable pub add_from : List Bytes → List Bytes → List Bytes → List Bytes
unfolding set_has
add_from set result [] = result
add_from set result (s ∷ add) = elim (set_has set s) [
  | true ↦ add_from set result add
  | false ↦ add_from (s ∷ set) (result ++ s ∷ []) add
]

unfoldable pub add_to_string_set : List Bytes → List Bytes → List Bytes
unfolding add_from
add_to_string_set existing add = add_from existing existing add

unfoldable pub remove_from_string_set : List Bytes → List Bytes → List Bytes
unfolding set_has
remove_from_string_set existing remove = keep (λ s. not (set_has remove s)) existing
