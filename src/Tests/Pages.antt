-- ===== src/Tests/Pages.antt =====
-- The theorem on pages at a partition of three items, read backwards.
use dynago.Prelude.{
  ◌≡◌, ◌<◌, refl, sym, ap, ◌∙◌, false, [], ◌∷◌, Bytes, bytes, none, some, Assoc, lookup, keys, ok,
  length, take, drop, ◌≟◌, ≟_iff, compare_bytes, arith,
}
use mathlib.Core.Path.{subst}
use dynago.Attribute.{Item, type_s, attr, no_attrs}
use dynago.Attribute.Items.{get_attr}
use dynago.Expr.Eval.{set_has}
use dynago.Memdb.Schema.{KeyDef, string_key, TableData}
use dynago.Memdb.Keys.{key_string, key_of}
use dynago.Memdb.Updates.StringSets.{IsDistinct}
use dynago.Memdb.Reads.Sort.{le_bytes, sort_strings, insert_sorted}
use dynago.Memdb.Reads.Page.{build_last_evaluated_key, last_of}
use dynago.Memdb.Reads.Query.{
  Source, source_of, candidates, item_at, from_start, directed, satisfies,
}
use dynago.Memdb.Reads.Paging.{query_next_page}
use dynago.Tests.Numbers.{naturals}

abbrev pub hash_def : KeyDef
hash_def = record { name = bytes "pk"; key_type = string_key }

abbrev pub seq : KeyDef
seq = record { name = bytes "seq"; key_type = string_key }

abbrev pub event : Bytes → Item
event key = attr (bytes "pk") (type_s (bytes "p")) (attr (bytes "seq") (type_s key) no_attrs)

abbrev pub events : Assoc Item
events =
    (bytes "S:b", event (bytes "b"))
    ∷ (bytes "S:c", event (bytes "c"))
    ∷ (bytes "S:a", event (bytes "a"))
    ∷ []

program : Unit {0}
unfolding candidates item_at from_start directed satisfies sort_strings insert_sorted le_bytes
    lookup ◌≟◌ compare_bytes key_of key_string get_attr set_has last_of
program = tt

pub newest_first :
    candidates naturals none (some seq) (some false) no_attrs events
    ≡ event (bytes "c") ∷ event (bytes "b") ∷ event (bytes "a") ∷ []
unfolding program
newest_first = refl

pub events-IsDistinct : IsDistinct (keys events)
unfolding program
events-IsDistinct = (refl, (refl, (refl, tt)))

event_key : (c : Bytes) → key_of seq (event c) ≡ ok (b'S' ∷ b':' ∷ c)
unfolding program
event_key c = refl

pub at_keys : (k : Bytes) (item : Item) → lookup k events ≡ some item → key_of seq item ≡ ok k
unfolding lookup
at_keys k item e = ground (
  arith,
  ≟_iff (bytes "S:a") k,
  ≟_iff (bytes "S:b") k,
  ≟_iff (bytes "S:c") k,
  event_key (bytes "a"),
  event_key (bytes "b"),
  event_key (bytes "c"),
)

last_first :
    last_of (take 1 (event (bytes "c") ∷ event (bytes "b") ∷ [])) ≡ some (event (bytes "c"))
unfolding last_of
last_first = refl

abbrev event_table : TableData
event_table = record {
  schema = record { hash_key = hash_def; range_key = some seq; gsis = [] };
  items = (bytes "S:p", events) ∷ [];
  gsis = [];
}

abbrev event_source : Source
event_source = record { items = event_table.items; hash_def = hash_def; range_def = some seq }

reads_events : source_of [] event_table ≡ ok event_source
unfolding source_of
reads_events = refl

query_next_page_example :
    candidates naturals none
      (some seq)
      (some false)
      (build_last_evaluated_key (event (bytes "c")) hash_def (some seq))
      events
    ≡ drop 1 (candidates naturals none (some seq) (some false) no_attrs events)
query_next_page_example =
    query_next_page naturals none event_table event_source seq (some false) no_attrs events 0
      (event (bytes "c")) reads_events refl events-IsDistinct at_keys
      (subst (λ l. 1 < length l) (sym newest_first) (omega arith))
      (ap (λ l. last_of (take 1 l)) newest_first ∙ last_first)
