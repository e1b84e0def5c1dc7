-- ===== src/Attribute/Items.antt =====
-- Reading and writing an item (a Go map), with the laws of both.
use dynago.Prelude.{ℕ, suc, ◌≡◌, refl, Bytes, Option, none, some, ◌≟◌, ≟_iff, arith, if◌then◌else◌}
use dynago.Attribute.{AttributeValue, Values, Item, no_values, value, no_attrs, attr}

-- item[k], with the second result
unfoldable pub get_attr : Bytes → Item → Option AttributeValue
get_attr k no_attrs = none
get_attr k (attr j v m) = if j ≟ k then some v else get_attr k m

-- item[k] = v
unfoldable pub set_attr : Bytes → AttributeValue → Item → Item
set_attr k v no_attrs = attr k v no_attrs
set_attr k v (attr j w m) = if j ≟ k then attr k v m else attr j w (set_attr k v m)

-- delete(item, k)
unfoldable pub delete_attr : Bytes → Item → Item
delete_attr k no_attrs = no_attrs
delete_attr k (attr j w m) = let rest = delete_attr k m in if j ≟ k then rest else attr j w rest

-- len(item), len(list)
unfoldable pub count_attrs : Item → ℕ
count_attrs no_attrs = 0
count_attrs (attr k v m) = suc (count_attrs m)

unfoldable pub count_values : Values → ℕ
count_values no_values = 0
count_values (value v vs) = suc (count_values vs)

unfoldable pub append_values : Values → Values → Values
append_values no_values ws = ws
append_values (value v vs) ws = value v (append_values vs ws)

pub get_attr-set_attr :
    (k j : Bytes) (v : AttributeValue) (m : Item)
    → get_attr j (set_attr k v m) ≡ (if k ≟ j then some v else get_attr j m)
unfolding get_attr set_attr
get_attr-set_attr k j v no_attrs = refl
get_attr-set_attr k j v (attr i w m) =
    ground (arith, get_attr-set_attr k j v m, ≟_iff i k, ≟_iff i j, ≟_iff k j)

pub get_attr-delete_attr :
    (k j : Bytes) (m : Item) → get_attr j (delete_attr k m) ≡ (if k ≟ j then none else get_attr j m)
unfolding get_attr delete_attr
get_attr-delete_attr k j no_attrs = ground arith
get_attr-delete_attr k j (attr i w m) =
    ground (arith, get_attr-delete_attr k j m, ≟_iff i k, ≟_iff i j, ≟_iff k j)

-- Writing what is there changes nothing.
pub set_attr_same :
    (k : Bytes) (v : AttributeValue) (m : Item) → get_attr k m ≡ some v → set_attr k v m ≡ m
unfolding get_attr set_attr
set_attr_same k v no_attrs h = cc
set_attr_same k v (attr j w m) h = ground (arith, set_attr_same k v m, ≟_iff j k)
