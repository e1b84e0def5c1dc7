-- ===== src/Tests/Store.antt =====
-- A backend with one table, keyed by "id" and indexed by "city".
use dynago.Prelude.{◌≡◌, [], ◌∷◌, Bytes, bytes, none, some, lookup, refl, arith}
use mathlib.Core.Path.{subst}
use dynago.Attribute.{Item, type_s, attr, no_attrs}
use dynago.Memdb.Schema.{string_key, GsiSchema, TableSchema, TableData, MemoryBackend, Partitions}
use dynago.Memdb.Parsing.{Placeholders}
use dynago.Memdb.Partitions.{get_item}
use dynago.Memdb.Writes.Stored.{IsSoundTable}
use dynago.Memdb.Writes.Consistency.{IsGood}
use dynago.Memdb.Writes.Calls.{IsSoundBackend}

abbrev pub users : Bytes
users = bytes "users"

abbrev pub by_city : GsiSchema
by_city = record {
  name = bytes "by_city";
  hash_key = record { name = bytes "city"; key_type = string_key };
  range_key = none;
}

abbrev pub schema : TableSchema
schema = record {
  hash_key = record { name = bytes "id"; key_type = string_key };
  range_key = none;
  gsis = by_city ∷ [];
}

-- The table with given items and index entries.
abbrev pub holding : Partitions → Partitions → TableData
holding items entries = record {
  schema = schema;
  items = items;
  gsis = (bytes "by_city", record { schema = by_city; items = entries }) ∷ [];
}

abbrev pub fresh : MemoryBackend
fresh = (users, holding [] []) ∷ []

abbrev pub id : Bytes → Item
id key = attr (bytes "id") (type_s key) no_attrs

abbrev pub ann : Item
ann = attr (bytes "id") (type_s (bytes "1")) (attr (bytes "city") (type_s (bytes "Rome")) no_attrs)

abbrev pub bob : Item
bob = attr (bytes "id") (type_s (bytes "2")) (attr (bytes "city") (type_s (bytes "Oslo")) no_attrs)

-- Where an item with a string key stands.
abbrev pub at : Bytes → Item → Partitions
at key item = (b'S' ∷ b':' ∷ key, (bytes "_", item) ∷ []) ∷ []

abbrev pub with_ann : MemoryBackend
with_ann = (users, holding (at (bytes "1") ann) (at (bytes "Rome") ann)) ∷ []

abbrev pub nothing : Placeholders
nothing = record { names = []; values = no_attrs }

pub holds_nothing : (h r : Bytes) (item : Item) → get_item h r [] ≡ some item → ⊥
unfolding get_item lookup
holds_nothing h r item e = cc

pub empty-IsSoundTable : IsSoundTable (holding [] [])
empty-IsSoundTable = record {
  keyed = record { at_place = λ h r item e. absurd (holds_nothing h r item e) };
  sound = (record { entry = λ k s item e. absurd (holds_nothing k s item e) }, tt);
}

fresh_table : (name : Bytes) (td : TableData) → lookup name fresh ≡ some td → holding [] [] ≡ td
unfolding lookup
fresh_table name td e = ground arith

pub fresh-IsSoundBackend : IsSoundBackend (λ name. schema) fresh
fresh-IsSoundBackend = record {
  at_name = λ name td e.
      subst (IsGood schema) (fresh_table name td e)
        (record { has_schema = refl; sound = empty-IsSoundTable });
}
