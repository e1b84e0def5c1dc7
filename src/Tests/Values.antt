-- ===== src/Tests/Values.antt =====
-- The theorems on keys, paths and sets at concrete values.
use dynago.Prelude.{◌≡◌, ◌≢◌, ◌↔◌, refl, true, [], ◌∷◌, bytes, none, some, ok, ◌≟◌}
use dynago.Attribute.{AttributeValue, Item, type_s, type_n, type_m, attr, no_attrs}
use dynago.Attribute.Items.{get_attr}
use dynago.Expr.Paths.{resolve_path_value}
use dynago.Memdb.Keys.{key_string, extract_key, extract_key_from_def}
use dynago.Memdb.Keys.Injective.{key_string-injective, extract_key-agrees}
use dynago.Memdb.Updates.Changes.{set_nested, remove_nested}
use dynago.Memdb.Updates.Writing.{is_open, resolve-set_nested, resolve-remove_nested}
use dynago.Tests.Store.{schema, ann}

-- "profile" is a map, "id" a string.
abbrev user : Item
user =
    attr (bytes "id") (type_s (bytes "1"))
      (attr (bytes "profile") (type_m (attr (bytes "age") (type_n (bytes "30")) no_attrs)) no_attrs)

abbrev forty : AttributeValue
forty = type_n (bytes "40")

profile_open : is_open (bytes "profile") (bytes "address" ∷ bytes "zip" ∷ []) user ≡ true
unfolding is_open get_attr ◌≟◌
profile_open = refl

resolve-set_nested_example :
    resolve_path_value
      (bytes "profile" ∷ bytes "address" ∷ bytes "zip" ∷ [])
      (set_nested (bytes "profile") (bytes "address" ∷ bytes "zip" ∷ []) forty user)
    ≡ some forty
resolve-set_nested_example =
    resolve-set_nested (bytes "profile") (bytes "address" ∷ bytes "zip" ∷ []) forty user
      profile_open

resolve-remove_nested_example :
    resolve_path_value
      (bytes "profile" ∷ bytes "age" ∷ [])
      (remove_nested (bytes "profile") (bytes "age" ∷ []) user)
    ≡ none
resolve-remove_nested_example = resolve-remove_nested (bytes "profile") (bytes "age" ∷ []) user

key_some : key_string forty ≢ []
unfolding key_string
key_some e = cc

key_string-injective_example : forty ≡ forty
key_string-injective_example = key_string-injective forty forty key_some refl

extract_key-agrees_example :
    (extract_key schema ann ≡ ok (bytes "S:1", bytes "_"))
    ↔ (extract_key_from_def ann schema.hash_key schema.range_key ≡ some (bytes "S:1", bytes "_"))
extract_key-agrees_example = extract_key-agrees schema ann (bytes "S:1") (bytes "_")
