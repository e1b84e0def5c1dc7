-- ===== src/Memdb/Gsi/Entries.antt =====
-- memdb/memdb.go: what an index holds after updateGSIs.
use dynago.Prelude.{
  ◌≡◌, refl, Bool, true, false, ◌&&◌, Bytes, Option, none, some, ◌≟◌, ≟_iff, if◌then◌else◌, arith,
}
use dynago.Attribute.{Item}
use dynago.Memdb.Schema.{Partitions, GsiSchema, GsiData}
use dynago.Memdb.Partitions.{get_item, get_item-store_item, get_item-remove_entry}
use dynago.Memdb.Gsi.{gsi_key, remove_old, add_new, remove_old_entry, add_new_entry, update_gsi}

-- Whether an index key is the place (k, s).
abbrev pub is_at : Option (Bytes × Bytes) → Bytes → Bytes → Bool
is_at none k s = false
is_at (some (h, r)) k s = (h ≟ k) && (r ≟ s)

abbrev pub key_in : GsiSchema → Option Item → Option (Bytes × Bytes)
key_in schema none = none
key_in schema (some item) = gsi_key schema item

pub is_at→eq :
    (place : Option (Bytes × Bytes)) (k s : Bytes) → is_at place k s ≡ true → place ≡ some (k, s)
is_at→eq none k s h = cc
is_at→eq (some (h, r)) k s e = ground (arith, ≟_iff h k, ≟_iff r s)

pub is_at_self : (k s : Bytes) → is_at (some (k, s)) k s ≡ true
is_at_self k s = ground (arith, ≟_iff k k, ≟_iff s s)

remove_old_lem :
    (place : Option (Bytes × Bytes)) (items : Partitions) (k s : Bytes)
    → get_item k s (remove_old place items) ≡ (if is_at place k s then none else get_item k s items)
unfolding remove_old
remove_old_lem none items k s = refl
remove_old_lem (some (h, r)) items k s = get_item-remove_entry h r k s items

add_new_lem :
    (place : Option (Bytes × Bytes)) (item : Item) (items : Partitions) (k s : Bytes)
    → get_item k s (add_new place item items)
      ≡ (if is_at place k s then some item else get_item k s items)
unfolding add_new
add_new_lem none item items k s = refl
add_new_lem (some (h, r)) item items k s = get_item-store_item h r k s item items

remove_old_entry_lem :
    (schema : GsiSchema) (old : Option Item) (items : Partitions) (k s : Bytes)
    → get_item k s (remove_old_entry schema old items)
      ≡ (if is_at (key_in schema old) k s then none else get_item k s items)
unfolding remove_old_entry
remove_old_entry_lem schema none items k s = refl
remove_old_entry_lem schema (some item) items k s = remove_old_lem (gsi_key schema item) items k s

add_new_entry_lem :
    (schema : GsiSchema) (new : Option Item) (items : Partitions) (k s : Bytes)
    → get_item k s (add_new_entry schema new items)
      ≡ (if is_at (key_in schema new) k s then new else get_item k s items)
unfolding add_new_entry
add_new_entry_lem schema none items k s = refl
add_new_entry_lem schema (some item) items k s = add_new_lem (gsi_key schema item) item items k s

-- An index after updateGSIs: the new item at its key, nothing at the old item's key, and all else as
-- it was.
pub get_item-update_gsi :
    (old new : Option Item) (gsi : GsiData) (k s : Bytes)
    → get_item k s (update_gsi old new gsi).items ≡ (
        if is_at (key_in gsi.schema new) k s
        then new
        else if is_at (key_in gsi.schema old) k s
        then none
        else get_item k s gsi.items)
unfolding update_gsi
get_item-update_gsi old new gsi k s = rw (add_new_entry_lem, remove_old_entry_lem)
