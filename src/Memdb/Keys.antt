-- ===== src/Memdb/Keys.antt =====
-- memdb/memdb.go: from key attributes to the strings that index the maps.
pub mod Injective
use dynago.Prelude.{
  Bool, [], ◌∷◌, ◌++◌, Bytes, bytes, Option, none, some, ◌≟◌, if◌then◌else◌, Result, ok, err,
  validation, ◌>>=◌,
}
use dynago.Attribute.{AttributeValue, Item, type_s, type_n, type_b}
use dynago.Attribute.Items.{get_attr}
use dynago.Memdb.Schema.{KeyDef, TableSchema}

-- keyString
unfoldable pub key_string : AttributeValue → Bytes
key_string (type_s s) = b'S' ∷ b':' ∷ s
key_string (type_n n) = b'N' ∷ b':' ∷ n
key_string (type_b b) = b'B' ∷ b':' ∷ b
key_string _ = []

-- The range key of a table that has none.
abbrev pub no_range : Bytes
no_range = bytes "_"

valid_key : Bytes → Result Bytes
valid_key [] = err validation
valid_key (c ∷ s) = ok (c ∷ s)

-- One key attribute: absent, of a wrong type, or its string.
unfoldable pub key_of : KeyDef → Item → Result Bytes
unfolding valid_key
key_of def item = elim (get_attr def.name item) [
  | none ↦ err validation
  | some v ↦ valid_key (key_string v)
]

unfoldable pub range_of : Option KeyDef → Item → Result Bytes
unfolding key_of
range_of none item = ok no_range
range_of (some def) item = key_of def item

-- extractKey
unfoldable pub extract_key : TableSchema → Item → Result (Bytes × Bytes)
unfolding key_of range_of
extract_key schema item = do
  hash ← key_of schema.hash_key item
  range_key ← range_of schema.range_key item
  ok (hash, range_key)

found_key : Option AttributeValue → Option Bytes
found_key none = none
found_key (some v) = elim (key_string v) [ [] ↦ none | c ∷ s ↦ some (c ∷ s) ]

found_range : Option KeyDef → Item → Option Bytes
unfolding found_key
found_range none item = some no_range
found_range (some def) item = found_key (get_attr def.name item)

both : Option Bytes → Option Bytes → Option (Bytes × Bytes)
both (some h) (some r) = some (h, r)
both _ _ = none

-- extractKeyFromDef
unfoldable pub extract_key_from_def : Item → KeyDef → Option KeyDef → Option (Bytes × Bytes)
unfolding found_key found_range both
extract_key_from_def item hash_def range_def =
    both (found_key (get_attr hash_def.name item)) (found_range range_def item)
