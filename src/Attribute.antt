-- ===== src/Attribute.antt =====
-- attribute.go: attribute values and items (map[string]AttributeValue), with the deep copies of
-- memdb/memdb.go. The struct holds one field for each variant, of which the one that Type names is
-- populated; here a variant is a constructor. A nil map or slice and an empty one are not told apart.
pub mod Items
use dynago.Prelude.{ℕ, ◌≡◌, refl, Bool, List, Bytes, ap}

mutual
  pub data AttributeValue : Type 0 where
    -- the zero value AttributeValue{}
    type_none : AttributeValue
    type_s type_n : Bytes → AttributeValue
    type_b : Bytes → AttributeValue
    type_bool type_null : Bool → AttributeValue
    type_l : Values → AttributeValue
    type_m : Item → AttributeValue
    type_ss type_ns type_bs : List Bytes → AttributeValue

  -- []AttributeValue
  pub data Values : Type 0 where
    no_values : Values
    value : AttributeValue → Values → Values

  -- map[string]AttributeValue
  pub data Item : Type 0 where
    no_attrs : Item
    attr : Bytes → AttributeValue → Item → Item

-- The AttributeType constants.
abbrev pub type_code : AttributeValue → ℕ
type_code type_none = 0
type_code (type_s s) = 1
type_code (type_n s) = 2
type_code (type_b s) = 3
type_code (type_bool b) = 4
type_code (type_null b) = 5
type_code (type_l vs) = 6
type_code (type_m m) = 7
type_code (type_ss ss) = 8
type_code (type_ns ss) = 9
type_code (type_bs ss) = 10

unfoldable mutual
  pub deep_copy_av : AttributeValue → AttributeValue
  deep_copy_av (type_l vs) = type_l (deep_copy_values vs)
  deep_copy_av (type_m m) = type_m (deep_copy_item m)
  deep_copy_av type_none = type_none
  deep_copy_av (type_s s) = type_s s
  deep_copy_av (type_n s) = type_n s
  deep_copy_av (type_b s) = type_b s
  deep_copy_av (type_bool b) = type_bool b
  deep_copy_av (type_null b) = type_null b
  deep_copy_av (type_ss ss) = type_ss ss
  deep_copy_av (type_ns ss) = type_ns ss
  deep_copy_av (type_bs ss) = type_bs ss

  pub deep_copy_values : Values → Values
  deep_copy_values no_values = no_values
  deep_copy_values (value v vs) = value (deep_copy_av v) (deep_copy_values vs)

  pub deep_copy_item : Item → Item
  deep_copy_item no_attrs = no_attrs
  deep_copy_item (attr k v m) = attr k (deep_copy_av v) (deep_copy_item m)

mutual
  unfolding deep_copy_av

  copy_av : (v : AttributeValue) → deep_copy_av v ≡ v
  copy_av (type_l vs) = ap type_l (copy_values vs)
  copy_av (type_m m) = ap type_m (copy_item m)
  copy_av type_none = refl
  copy_av (type_s s) = refl
  copy_av (type_n s) = refl
  copy_av (type_b s) = refl
  copy_av (type_bool b) = refl
  copy_av (type_null b) = refl
  copy_av (type_ss ss) = refl
  copy_av (type_ns ss) = refl
  copy_av (type_bs ss) = refl

  copy_values : (vs : Values) → deep_copy_values vs ≡ vs
  copy_values no_values = refl
  copy_values (value v vs) = cc (copy_av v, copy_values vs)

  copy_item : (m : Item) → deep_copy_item m ≡ m
  copy_item no_attrs = refl
  copy_item (attr k v m) = cc (copy_av v, copy_item m)

-- A copy holds what the original holds.
pub deep_copy_item_lem : (m : Item) → deep_copy_item m ≡ m
deep_copy_item_lem = copy_item

pub deep_copy_av_lem : (v : AttributeValue) → deep_copy_av v ≡ v
deep_copy_av_lem = copy_av
