-- ===== src/Client/Keys.antt =====
-- key.go: KeyValue and its constructors.
use dynago.Prelude.{Bool, true, false, List, [], ◌∷◌, Bytes, Result, ok, err, panic, ◌>>=◌}
use dynago.Attribute.{AttributeValue, Item, no_attrs, type_s}
use dynago.Attribute.Items.{set_attr}
use dynago.Client.Values.{GoValue, go_string, Printers, to_attribute_value}

pub record KeyValue : Type 0 where
  pub hash_name : Bytes
  pub hash_val : AttributeValue
  pub range_name : Bytes
  pub range_val : AttributeValue
  pub has_range : Bool

with_range : Bool → Bytes → AttributeValue → Item → Item
with_range false name val key = key
with_range true name val key = set_attr name val key

-- (kv KeyValue) Map; of two entries with one name the second stays
unfoldable pub key_map : KeyValue → Item
unfolding with_range
key_map kv =
    with_range kv.has_range kv.range_name kv.range_val (set_attr kv.hash_name kv.hash_val no_attrs)

-- Fields that a composite literal leaves out.
abbrev pub no_value : AttributeValue
no_value = AttributeValue.type_none

-- StringKey
unfoldable pub string_key : Bytes → Bytes → KeyValue
string_key name val = record {
  hash_name = name;
  hash_val = type_s val;
  range_name = [];
  range_val = no_value;
  has_range = false;
}

-- StringPairKey
unfoldable pub string_pair_key : Bytes → Bytes → Bytes → Bytes → KeyValue
string_pair_key hash_name hash_val range_name range_val = record {
  hash_name = hash_name;
  hash_val = type_s hash_val;
  range_name = range_name;
  range_val = type_s range_val;
  has_range = true;
}

-- Key: two or four arguments, of which the first and the third are strings.
unfoldable pub key : Printers → List GoValue → Result KeyValue
key P (go_string name ∷ v ∷ []) = do
  val ← to_attribute_value P v
  ok (record {
    hash_name = name;
    hash_val = val;
    range_name = [];
    range_val = no_value;
    has_range = false;
  })
key P (go_string name ∷ v ∷ go_string range_name ∷ w ∷ []) = do
  val ← to_attribute_value P v
  range_val ← to_attribute_value P w
  ok (record {
    hash_name = name;
    hash_val = val;
    range_name = range_name;
    range_val = range_val;
    has_range = true;
  })
key P _ = err panic
