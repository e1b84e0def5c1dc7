-- ===== src/Memdb/Reads/Get.antt =====
-- memdb/memdb.go: GetItem, BatchGetItem and TransactGetItems.
use dynago.Prelude.{
  ℕ, ◌+◌, List, [], ◌∷◌, Bytes, Option, none, some, Assoc, insert, ltb, length, if◌then◌else◌,
  Result, ok, err, validation, ◌>>=◌,
}
use dynago.Attribute.{Item, deep_copy_item}
use dynago.Backend.{GetItemRequest, KeysAndProjection}
use dynago.Memdb.Schema.{TableData, MemoryBackend, table}
use dynago.Memdb.Keys.{extract_key}
use dynago.Memdb.Partitions.{get_item}
use dynago.Memdb.Reads.Project.{project_item}

projected : Bytes → Assoc Bytes → Option Item → Option Item
projected projection names none = none
projected projection names (some item) = some (project_item (deep_copy_item item) projection names)

-- What GetItem does under the lock; none is a response without an item.
unfoldable pub get_in : Item → Bytes → Assoc Bytes → TableData → Result (Option Item)
unfolding projected
get_in key projection names td = do
  (hash, rng) ← extract_key td.schema key
  ok (projected projection names (get_item hash rng td.items))

-- GetItem
unfoldable pub get_item_request : GetItemRequest → MemoryBackend → Result (Option Item)
unfolding get_in
get_item_request req m = do
  td ← table req.table_name m
  get_in req.key req.projection_expression req.names td

cons_found : Option Item → List Item → List Item
cons_found none items = items
cons_found (some item) items = item ∷ items

get_keys : KeysAndProjection → List Item → TableData → Result (List Item)
unfolding get_in cons_found
get_keys kp [] td = ok []
get_keys kp (key ∷ keys) td =
    let rest = get_keys kp keys td in
    do
      found ← get_in key kp.projection_expression kp.names td
      items ← rest
      ok (cons_found found items)

add_response : Bytes → List Item → Assoc (List Item) → Assoc (List Item)
add_response name [] responses = responses
add_response name (item ∷ items) responses = insert name (item ∷ items) responses

-- The loop over the tables, in the order that the map's iteration takes.
batch_tables :
    Assoc KeysAndProjection → MemoryBackend → Assoc (List Item) → Result (Assoc (List Item))
unfolding get_keys add_response
batch_tables [] m responses = ok responses
batch_tables ((name, kp) ∷ rest) m responses = do
  td ← table name m
  items ← get_keys kp kp.keys td
  batch_tables rest m (add_response name items responses)

total_keys : Assoc KeysAndProjection → ℕ
total_keys [] = 0
total_keys ((name, kp) ∷ rest) = length kp.keys + total_keys rest

-- BatchGetItem
unfoldable pub batch_get_item : Assoc KeysAndProjection → MemoryBackend → Result (Assoc (List Item))
unfolding batch_tables total_keys
batch_get_item req m = if ltb 100 (total_keys req) then err validation else batch_tables req m []

-- Every table is resolved before any item is read.
resolve_tables : List GetItemRequest → MemoryBackend → Result (List (GetItemRequest × TableData))
resolve_tables [] m = ok []
resolve_tables (req ∷ reqs) m =
    let rest = resolve_tables reqs m in
    do td ← table req.table_name m; resolved ← rest; ok ((req, td) ∷ resolved)

get_each : List (GetItemRequest × TableData) → Result (List (Option Item))
unfolding get_in
get_each [] = ok []
get_each ((req, td) ∷ rest) =
    let later = get_each rest in
    do
      found ← get_in req.key req.projection_expression req.names td
      responses ← later
      ok (found ∷ responses)

-- TransactGetItems
unfoldable pub transact_get_items :
    List GetItemRequest → MemoryBackend → Result (List (Option Item))
unfolding resolve_tables get_each
transact_get_items reqs m =
    if ltb 100 (length reqs)
    then err validation
    else (do resolved ← resolve_tables reqs m; get_each resolved)
