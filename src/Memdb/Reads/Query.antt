-- ===== src/Memdb/Reads/Query.antt =====
-- memdb/memdb.go: Query.
use dynago.Prelude.{
  Bool, true, false, List, [], ◌∷◌, Bytes, Option, none, some, Assoc, lookup, keys, keep, map,
  reverse, ◌≟◌, if◌then◌else◌, Result, ok, err, validation, ◌>>=◌,
}
use dynago.Attribute.{AttributeValue, Item, no_attrs, attr}
use dynago.Attribute.Items.{get_attr}
use dynago.Backend.{QueryRequest, PageResponse}
use dynago.Expr.Floats.{FloatOps}
use dynago.Memdb.Schema.{KeyDef, Partitions, GsiData, TableData, MemoryBackend, table}
use dynago.Memdb.Keys.{key_string, no_range}
use dynago.Memdb.KeyCondition.Parse.{SortKeyCondition, parse_key_condition}
use dynago.Memdb.KeyCondition.Match.{matches_sort_key_condition}
use dynago.Memdb.Reads.Sort.{sort_strings}
use dynago.Memdb.Reads.Page.{page}

-- The items and the key schema that a request reads: the table's or an index's.
pub record Source : Type 0 where
  pub items : Partitions
  pub hash_def : KeyDef
  pub range_def : Option KeyDef

index_source : Option GsiData → Result Source
index_source none = err validation
index_source (some gsi) =
    ok (record {
      items = gsi.items;
      hash_def = gsi.schema.hash_key;
      range_def = gsi.schema.range_key;
    })

unfoldable pub source_of : Bytes → TableData → Result Source
unfolding index_source
source_of [] td =
    ok (record { items = td.items; hash_def = td.schema.hash_key; range_def = td.schema.range_key })
source_of (c ∷ index) td = index_source (lookup (c ∷ index) td.gsis)

-- partition[rk]; a missing key reads as a nil map
unfoldable pub item_at : Assoc Item → Bytes → Item
item_at rng rk = elim (lookup rk rng) [ none ↦ no_attrs | some item ↦ item ]

key_or : Bytes → Option AttributeValue → Bytes
key_or default none = default
key_or default (some v) = key_string v

-- The range key in an ExclusiveStartKey.
unfoldable pub start_range : Option KeyDef → Item → Bytes
unfolding key_or
start_range none start = no_range
start_range (some def) start = key_or no_range (get_attr def.name start)

-- The keys behind the start key; none if it is not among them.
unfoldable pub behind : Bytes → List Bytes → Option (List Bytes)
behind start [] = none
behind start (rk ∷ rks) = let later = behind start rks in if rk ≟ start then some rks else later

-- rangeKeys[startIdx:]: startIdx stays 0 if the start key is not found.
unfoldable pub from_start : Option KeyDef → Item → List Bytes → List Bytes
unfolding start_range behind
from_start range_def no_attrs rks = rks
from_start range_def (attr k v start) rks =
    elim (behind (start_range range_def (attr k v start)) rks) [ none ↦ rks | some later ↦ later ]

-- The direction: only an explicit false reverses.
unfoldable pub directed : Option Bool → List Bytes → List Bytes
directed (some false) rks = reverse rks
directed _ rks = rks

unfoldable pub satisfies : FloatOps → Option SortKeyCondition → Option KeyDef → Item → Bool
satisfies F none range_def item = true
satisfies F (some cond) range_def item = matches_sort_key_condition F item cond range_def

-- The candidates of a partition.
unfoldable pub candidates :
    FloatOps → Option SortKeyCondition → Option KeyDef → Option Bool → Item → Assoc Item → List Item
unfolding directed satisfies
candidates F cond range_def forward start rng =
    keep (satisfies F cond range_def)
      (map (item_at rng) (from_start range_def start (directed forward (sort_strings (keys rng)))))

abbrev pub empty_response : PageResponse
empty_response = record { items = []; count = 0; scanned_count = 0; last_evaluated_key = no_attrs }

unfoldable pub query_partition :
    FloatOps
    → QueryRequest
    → TableData
    → Option KeyDef
    → Option SortKeyCondition
    → Option (Assoc Item)
    → Result PageResponse
unfolding candidates
query_partition F req td range_def cond none = ok empty_response
query_partition F req td range_def cond (some rng) =
    page F req.filter_expression req.projection_expression req.placeholders req.limit
      td.schema.hash_key td.schema.range_key
      (candidates F cond range_def req.scan_index_forward req.exclusive_start_key rng)

-- What Query does under the lock.
unfoldable pub query_in : FloatOps → QueryRequest → TableData → Result PageResponse
unfolding query_partition
query_in F req td = do
  source ← source_of req.index_name td
  (pk_value, cond) ←
      parse_key_condition req.key_condition_expression req.placeholders source.hash_def.name
        source.range_def
  query_partition F req td source.range_def cond (lookup (key_string pk_value) source.items)

-- Query
unfoldable pub query : FloatOps → QueryRequest → MemoryBackend → Result PageResponse
unfolding query_in
query F req m = do td ← table req.table_name m; query_in F req td
