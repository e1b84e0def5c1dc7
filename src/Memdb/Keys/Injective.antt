-- ===== src/Memdb/Keys/Injective.antt =====
-- memdb/memdb.go: keyString, extractKey and extractKeyFromDef.
use dynago.Prelude.{◌≡◌, ◌≢◌, ◌↔◌, refl, [], Bytes, some, arith, ok}
use dynago.Attribute.{AttributeValue, Item, type_s, type_n, type_b}
use dynago.Attribute.Items.{get_attr}
use dynago.Memdb.Schema.{KeyDef, TableSchema}
use dynago.Memdb.Keys.{key_string, key_of, extract_key, extract_key_from_def}

-- Two values with the same key string, if it is not empty, are the same value: a string, a number
-- and a binary with the same bytes are kept apart.
pub key_string-injective :
    (a b : AttributeValue) → key_string a ≢ [] → key_string a ≡ key_string b → a ≡ b
unfolding key_string
key_string-injective (type_s s) b h e = ground arith
key_string-injective (type_n s) b h e = ground arith
key_string-injective (type_b s) b h e = ground arith
key_string-injective _ b h e = absurd (h refl)

-- A key attribute that was read stands in the item, and its key string is the key.
pub key_of-eq-ok :
    (def : KeyDef) (item : Item) (k : Bytes)
    → key_of def item ≡ ok k
    → (v : AttributeValue) × (get_attr def.name item ≡ some v) × (key_string v ≡ k) × (k ≢ [])
unfolding key_of
key_of-eq-ok def item k h = ground arith

-- extractKey gives a key of an item exactly if extractKeyFromDef gives it with the key definitions of
-- the table.
pub extract_key-agrees :
    (schema : TableSchema) (item : Item) (h r : Bytes)
    → (extract_key schema item ≡ ok (h, r))
      ↔ (extract_key_from_def item schema.hash_key schema.range_key ≡ some (h, r))
unfolding extract_key extract_key_from_def
extract_key-agrees schema item h r = (λ p. ground arith, λ p. ground arith)
