-- ===== src/Memdb/Gsi.antt =====
-- memdb/memdb.go: updateGSIs.
pub mod Entries
pub mod Consistent
use dynago.Prelude.{List, [], ◌∷◌, Bytes, Option, none, some, Assoc}
use dynago.Attribute.{Item}
use dynago.Memdb.Schema.{Partitions, GsiSchema, GsiData, TableData}
use dynago.Memdb.Keys.{extract_key_from_def}
use dynago.Memdb.Partitions.{store_item, remove_entry}

-- The key of an item in an index; none if the item is not indexed.
abbrev pub gsi_key : GsiSchema → Item → Option (Bytes × Bytes)
gsi_key schema item = extract_key_from_def item schema.hash_key schema.range_key

remove_old : Option (Bytes × Bytes) → Partitions → Partitions
remove_old none items = items
remove_old (some (hash, rng)) items = remove_entry hash rng items

add_new : Option (Bytes × Bytes) → Item → Partitions → Partitions
add_new none item items = items
add_new (some (hash, rng)) item items = store_item hash rng item items

unfoldable pub remove_old_entry : GsiSchema → Option Item → Partitions → Partitions
unfolding remove_old
remove_old_entry schema none items = items
remove_old_entry schema (some old) items = remove_old (gsi_key schema old) items

unfoldable pub add_new_entry : GsiSchema → Option Item → Partitions → Partitions
unfolding add_new
add_new_entry schema none items = items
add_new_entry schema (some item) items = add_new (gsi_key schema item) item items

-- One round of the loop over the indexes.
unfoldable pub update_gsi : Option Item → Option Item → GsiData → GsiData
unfolding remove_old_entry add_new_entry
update_gsi old_item new_item gsi = record gsi {
  items = add_new_entry gsi.schema new_item (remove_old_entry gsi.schema old_item gsi.items);
}

unfoldable pub update_each : Option Item → Option Item → Assoc GsiData → Assoc GsiData
unfolding update_gsi
update_each old_item new_item [] = []
update_each old_item new_item ((name, gsi) ∷ rest) =
    (name, update_gsi old_item new_item gsi) ∷ update_each old_item new_item rest

-- updateGSIs
unfoldable pub update_gsis : Option Item → Option Item → TableData → TableData
unfolding update_each
update_gsis old_item new_item td = record td { gsis = update_each old_item new_item td.gsis }
