-- ===== src/Memdb/Reads/Scan.antt =====
-- memdb/memdb.go: Scan.
use dynago.Prelude.{
  ◌&&◌, List, [], ◌∷◌, ◌++◌, Bytes, Option, none, some, keys, map, ◌≟◌, if◌then◌else◌, Result,
  ◌>>=◌,
}
use dynago.Attribute.{Item, no_attrs, attr}
use dynago.Attribute.Items.{get_attr}
use dynago.Backend.{ScanRequest, PageResponse}
use dynago.Expr.Floats.{FloatOps}
use dynago.Memdb.Schema.{KeyDef, Partitions, TableData, MemoryBackend, table}
use dynago.Memdb.Keys.{key_string}
use dynago.Memdb.Partitions.{partition, get_item}
use dynago.Memdb.Reads.Sort.{sort_strings}
use dynago.Memdb.Reads.Page.{page}
use dynago.Memdb.Reads.Query.{source_of, start_range}

-- itemRef
abbrev pub ItemRef : Type 0
ItemRef = Bytes × Bytes

-- The loop over the hash keys.
refs_of : List Bytes → Partitions → List ItemRef
refs_of [] items = []
refs_of (hk ∷ hks) items =
    map (λ rk. (hk, rk)) (sort_strings (keys (partition hk items))) ++ refs_of hks items

-- allRefs
unfoldable pub all_refs : Partitions → List ItemRef
unfolding refs_of
all_refs items = refs_of (sort_strings (keys items)) items

item_of : Partitions → ItemRef → Item
item_of items (hk, rk) = elim (get_item hk rk items) [ none ↦ no_attrs | some item ↦ item ]

start_hash : KeyDef → Item → Bytes
start_hash def start = elim (get_attr def.name start) [ none ↦ [] | some v ↦ key_string v ]

-- The references behind the start key; none if it is not among them.
unfoldable pub refs_behind : ItemRef → List ItemRef → Option (List ItemRef)
refs_behind start [] = none
refs_behind (h, r) ((hk, rk) ∷ refs) =
    let later = refs_behind (h, r) refs in if (hk ≟ h) && (rk ≟ r) then some refs else later

unfoldable pub refs_from : KeyDef → Option KeyDef → Item → List ItemRef → List ItemRef
unfolding refs_behind start_hash start_range
refs_from hash_def range_def no_attrs refs = refs
refs_from hash_def range_def (attr k v start) refs =
    let wanted : ItemRef =
      (start_hash hash_def (attr k v start), start_range range_def (attr k v start)) in
    elim (refs_behind wanted refs) [ none ↦ refs | some later ↦ later ]

-- What Scan does under the lock; unlike Query it builds the next key from the index's own schema.
unfoldable pub scan_in : FloatOps → ScanRequest → TableData → Result PageResponse
unfolding item_of
scan_in F req td = do
  source ← source_of req.index_name td
  page F req.filter_expression req.projection_expression req.placeholders req.limit source.hash_def
      source.range_def
      (map (item_of source.items) (
        refs_from source.hash_def source.range_def req.exclusive_start_key (all_refs source.items)))

-- Scan
unfoldable pub scan : FloatOps → ScanRequest → MemoryBackend → Result PageResponse
unfolding scan_in
scan F req m = do td ← table req.table_name m; scan_in F req td
