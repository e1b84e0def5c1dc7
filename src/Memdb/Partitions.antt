-- ===== src/Memdb/Partitions.antt =====
-- memdb/memdb.go: storeItem, getItem and deleteItem on the two-level map of items, and the
-- removal that updateGSIs makes.
use dynago.Prelude.{
  ◌≡◌, ◌&&◌, [], ◌∷◌, Bytes, Option, none, some, Assoc, lookup, insert, erase, lookup-insert,
  lookup-erase, ◌≟◌, ≟_iff, Option-cases, inl, inr, if◌then◌else◌, arith,
}
use dynago.Attribute.{Item, deep_copy_item, deep_copy_item_lem}
use dynago.Memdb.Schema.{Partitions}

-- A missing partition reads as an empty map.
unfoldable pub partition : Bytes → Partitions → Assoc Item
partition hash items = elim (lookup hash items) [ none ↦ [] | some rng ↦ rng ]

-- storeItem; updateGSIs makes the same write into an index
unfoldable pub store_item : Bytes → Bytes → Item → Partitions → Partitions
unfolding partition
store_item hash range_key item items =
    insert hash (insert range_key (deep_copy_item item) (partition hash items)) items

unfoldable pub get_item : Bytes → Bytes → Partitions → Option Item
unfolding partition
get_item hash range_key items = lookup range_key (partition hash items)

-- What is left of a partition after a deletion: an empty one is dropped.
put_back : Bytes → Assoc Item → Partitions → Partitions
put_back hash [] items = erase hash items
put_back hash (e ∷ rng) items = insert hash (e ∷ rng) items

delete_found : Bytes → Bytes → Assoc Item → Option Item → Partitions → Partitions × Option Item
unfolding put_back
delete_found hash range_key rng none items = (items, none)
delete_found hash range_key rng (some item) items =
    (put_back hash (erase range_key rng) items, some item)

-- deleteItem: the new map, and the old item
unfoldable pub delete_item : Bytes → Bytes → Partitions → Partitions × Option Item
unfolding delete_found partition
delete_item hash range_key items =
    let rng = partition hash items in delete_found hash range_key rng (lookup range_key rng) items

-- The removal that updateGSIs makes in an index.
unfoldable pub remove_entry : Bytes → Bytes → Partitions → Partitions
unfolding put_back
remove_entry hash range_key items = elim (lookup hash items) [
  | none ↦ items
  | some rng ↦ put_back hash (erase range_key rng) items
]

pub get_item-store_item :
    (h r k s : Bytes) (item : Item) (items : Partitions)
    → get_item k s (store_item h r item items)
      ≡ (if (h ≟ k) && (r ≟ s) then some item else get_item k s items)
unfolding get_item store_item
get_item-store_item h r k s item items = ground (
  arith,
  lookup-insert h k (insert r (deep_copy_item item) (partition h items)) items,
  lookup-insert r s (deep_copy_item item) (partition h items),
  deep_copy_item_lem item,
  ≟_iff h k,
)

lookup-put_back :
    (h k : Bytes) (rng : Assoc Item) (items : Partitions)
    → partition k (put_back h rng items) ≡ (if h ≟ k then rng else partition k items)
unfolding put_back partition
lookup-put_back h k [] items = ground (arith, lookup-erase h k items)
lookup-put_back h k (e ∷ rng) items = ground (arith, lookup-insert h k (e ∷ rng) items)

pub get_item-remove_entry :
    (h r k s : Bytes) (items : Partitions)
    → get_item k s (remove_entry h r items)
      ≡ (if (h ≟ k) && (r ≟ s) then none else get_item k s items)
unfolding get_item remove_entry lookup
get_item-remove_entry h r k s items = elim (Option-cases (lookup h items)) [
  | inl absent ↦ ground (arith, ≟_iff h k)
  | inr (rng, found) ↦
      ground (arith, lookup-put_back h k (erase r rng) items, lookup-erase r s rng, ≟_iff h k)
]

pub get_item-delete_item :
    (h r k s : Bytes) (items : Partitions)
    → get_item k s (delete_item h r items).0
      ≡ (if (h ≟ k) && (r ≟ s) then none else get_item k s items)
unfolding get_item delete_item
get_item-delete_item h r k s items = elim (Option-cases (lookup r (partition h items))) [
  | inl absent ↦ rw (absent) (ground (arith, ≟_iff h k, ≟_iff r s))
  | inr (item, found) ↦ rw (found) (
      ground (
        arith,
        lookup-put_back h k (erase r (partition h items)) items,
        lookup-erase r s (partition h items),
        ≟_iff h k,
      ))
]

-- deleteItem returns what getItem would have returned.
pub delete_item-eq-get_item :
    (h r : Bytes) (items : Partitions) → (delete_item h r items).1 ≡ get_item h r items
unfolding get_item delete_item
delete_item-eq-get_item h r items = ground arith
