-- ===== src/Memdb/Writes/Single.antt =====
-- memdb/memdb.go: PutItem, DeleteItem and UpdateItem. What a handler does under the table's lock is a
-- function of the table; every error comes before the first write.
use dynago.Prelude.{
  ◌≡◌, refl, ap, Bool, true, false, [], ◌∷◌, Bytes, bytes, Option, none, some, insert, ◌≟◌,
  if◌then◌else◌, Result, ok, err, condition_failed, ◌>>=◌, ◌>>◌,
}
use dynago.Attribute.{Item, no_attrs, deep_copy_item, deep_copy_item_lem}
use dynago.Backend.{PutItemRequest, DeleteItemRequest, UpdateItemRequest}
use dynago.Expr.Floats.{FloatOps}
use dynago.Memdb.Schema.{TableData, MemoryBackend, table}
use dynago.Memdb.Keys.{extract_key}
use dynago.Memdb.Partitions.{store_item, get_item, delete_item}
use dynago.Memdb.Gsi.{update_gsis}
use dynago.Memdb.Parsing.{Placeholders}
use dynago.Memdb.Conditions.{eval_condition}
use dynago.Memdb.Updates.Parse.{parse_update_expression}
use dynago.Memdb.Updates.Apply.{eval_update_nodes}

-- A missing item is checked as an empty one.
abbrev pub or_empty : Option Item → Item
or_empty none = no_attrs
or_empty (some item) = item

holds_or_fails : Bool → Result (Unit {0})
holds_or_fails true = ok tt
holds_or_fails false = err condition_failed

-- "Evaluate condition expression if present".
unfoldable pub check_condition : FloatOps → Bytes → Placeholders → Option Item → Result (Unit {0})
unfolding holds_or_fails
check_condition F [] p existing = ok tt
check_condition F (c ∷ text) p existing = do
  holds ← eval_condition F (c ∷ text) p (or_empty existing)
  holds_or_fails holds

-- storeItem and updateGSIs
unfoldable pub put_stored : Bytes → Bytes → Option Item → Item → TableData → TableData
put_stored hash rng old_item item td =
    update_gsis old_item (some item) (record td { items = store_item hash rng item td.items })

-- deleteItem and updateGSIs
unfoldable pub delete_stored : Bytes → Bytes → TableData → TableData
delete_stored hash rng td =
    let (left, old_item) = delete_item hash rng td.items in
    update_gsis old_item none (record td { items = left })

-- PutItem under the lock
unfoldable pub put_in : FloatOps → PutItemRequest → TableData → Result (TableData × Unit {0})
unfolding put_stored
put_in F req td = do
  (hash, rng) ← extract_key td.schema req.item
  check_condition F req.condition_expression req.placeholders (get_item hash rng td.items)
  ok (put_stored hash rng (get_item hash rng td.items) req.item td, tt)

-- DeleteItem under the lock
unfoldable pub delete_in : FloatOps → DeleteItemRequest → TableData → Result (TableData × Unit {0})
unfolding delete_stored
delete_in F req td = do
  (hash, rng) ← extract_key td.schema req.key
  check_condition F req.condition_expression req.placeholders (get_item hash rng td.items)
  ok (delete_stored hash rng td, tt)

-- "Start with existing or new item with keys".
unfoldable pub start_item : Option Item → Item → Item
start_item none key = deep_copy_item key
start_item (some existing) key = deep_copy_item existing

-- The update expression, if there is one.
unfoldable pub updated_item : FloatOps → Bytes → Placeholders → Item → Result Item
updated_item F [] p item = ok item
updated_item F (c ∷ text) p item = do
  ops ← parse_update_expression p (c ∷ text)
  eval_update_nodes F ops item

unfoldable pub copied : Option Item → Option Item
copied none = none
copied (some item) = some (deep_copy_item item)

pub copied_lem : (existing : Option Item) → copied existing ≡ existing
unfolding copied
copied_lem none = refl
copied_lem (some item) = ap some (deep_copy_item_lem item)

-- UpdateItemResponse.Attributes
returned : Bytes → Option Item → Item → Option Item
returned return_values old_item item =
    if return_values ≟ bytes "ALL_NEW"
    then some (deep_copy_item item)
    else if return_values ≟ bytes "ALL_OLD"
    then old_item
    else none

-- UpdateItem under the lock
unfoldable pub update_in :
    FloatOps → UpdateItemRequest → TableData → Result (TableData × Option Item)
unfolding start_item updated_item copied returned put_stored
update_in F req td = do
  (hash, rng) ← extract_key td.schema req.key
  check_condition F req.condition_expression req.placeholders (get_item hash rng td.items)
  item ←
      updated_item F req.update_expression req.placeholders
        (start_item (get_item hash rng td.items) req.key)
  ok (
    put_stored hash rng (copied (get_item hash rng td.items)) item td,
    returned req.return_values (copied (get_item hash rng td.items)) item,
  )

store_result {ℓ} :
    {A : Type ℓ} → Bytes → MemoryBackend → Result (TableData × A) → MemoryBackend × Result A
store_result name m (ok (td, a)) = (insert name td m, ok a)
store_result name m (err e) = (m, err e)

-- A handler that locks one table.
unfoldable pub on_table {ℓ} :
    {A : Type ℓ}
    → Bytes
    → (TableData → Result (TableData × A))
    → MemoryBackend
    → MemoryBackend × Result A
unfolding store_result
on_table name f m = store_result name m (do td ← table name m; f td)

-- PutItem, DeleteItem, UpdateItem
unfoldable pub put_item :
    FloatOps → PutItemRequest → MemoryBackend → MemoryBackend × Result (Unit {0})
unfolding put_in on_table
put_item F req m = on_table req.table_name (put_in F req) m

unfoldable pub delete_item_request :
    FloatOps → DeleteItemRequest → MemoryBackend → MemoryBackend × Result (Unit {0})
unfolding delete_in on_table
delete_item_request F req m = on_table req.table_name (delete_in F req) m

unfoldable pub update_item :
    FloatOps → UpdateItemRequest → MemoryBackend → MemoryBackend × Result (Option Item)
unfolding update_in on_table
update_item F req m = on_table req.table_name (update_in F req) m
