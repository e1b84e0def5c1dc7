-- ===== src/Codec/Read.antt =====
-- unmarshal.go: what a value that was read has to do with the attribute it was read from.
pub mod Lists
pub mod Sound
use dynago.Prelude.{◌≡◌, Bool, true, false, List, [], ◌∷◌, Bytes, Option, none, some}
use dynago.Attribute.{
  AttributeValue, Values, Item, type_none, type_s, type_n, type_b, type_bool, type_null, type_l,
  type_m, type_ss, type_ns, type_bs, no_values, value, no_attrs, attr,
}
use dynago.Attribute.Items.{get_attr}
use dynago.Codec.Numbers.{Formats, parse_int, parse_uint}
use dynago.Codec.Tags.{StructField, FieldOptions, build_field}
use dynago.Codec.Types.{
  GoType, FieldTypes, El, Fields, KeyType, string_type, bool_type, time_type, int_type, uint_type,
  float32_type, float64_type, slice_of, pointer_to, defined_bytes, map_of, struct_of, custom_type,
  interface_type, other_type, no_fields, field, zero_value,
}

-- A list was read element by element.
abbrev pub Listed : {A : Type 0} → (AttributeValue → A → Type 0) → Values → List A → Type 0
Listed R no_values [] = Unit
Listed R no_values (x ∷ xs) = ⊥
Listed R (value av vs) [] = ⊥
Listed R (value av vs) (x ∷ xs) = R av x × Listed R vs xs

-- A list of values gives a slice with one element for each; bytes and sets are not told here.
abbrev pub Sliced :
    {A : Type 0} → (AttributeValue → A → Type 0) → AttributeValue → Option (List A) → Type 0
Sliced R (type_l vs) none = ⊥
Sliced R (type_l vs) (some xs) = Listed R vs xs
Sliced R type_none xs = Unit
Sliced R (type_s s) xs = Unit
Sliced R (type_n s) xs = Unit
Sliced R (type_b s) xs = Unit
Sliced R (type_bool b) xs = Unit
Sliced R (type_null b) xs = Unit
Sliced R (type_m m) xs = Unit
Sliced R (type_ss ss) xs = Unit
Sliced R (type_ns ss) xs = Unit
Sliced R (type_bs ss) xs = Unit

-- A map was read key by key.
abbrev pub Keyed : {A : Type 0} → (AttributeValue → A → Type 0) → Item → List (Bytes × A) → Type 0
Keyed R no_attrs [] = Unit
Keyed R no_attrs (x ∷ xs) = ⊥
Keyed R (attr k av m) [] = ⊥
Keyed R (attr k av m) ((j, x) ∷ xs) = (k ≡ j) × (R av x × Keyed R m xs)

abbrev pub Mapped :
    {A : Type 0}
    → (AttributeValue → A → Type 0)
    → AttributeValue
    → Option (List (Bytes × A))
    → Type 0
Mapped R av none = ⊥
Mapped R av (some xs) = (m : Item) × ((av ≡ type_m m) × Keyed R m xs)

unfoldable pub is_pointer : GoType → Bool
is_pointer (pointer_to t) = true
is_pointer t = false

-- A pointer was read: NULL gives nil; a second pointer is not told here.
abbrev pub Pointed : {A : Type 0} → Bool → (A → Type 0) → AttributeValue → Option A → Type 0
Pointed twice R av none = av ≡ type_null true
Pointed true R av (some x) = Unit
Pointed false R av (some x) = R x

-- What a pointer points to before it is read
abbrev pub before : (t : GoType) → Option (El t) → El t
before t none = zero_value t
before t (some x) = x

-- The attribute of a field, if it is not ignored
unfoldable pub named_attribute : Option FieldOptions → Item → Option AttributeValue
named_attribute none item = none
named_attribute (some o) item = get_attr o.name item

-- A field without an attribute is as before.
abbrev pub FieldRead :
    {A : Type 0} → (AttributeValue → A → Type 0) → Option AttributeValue → A → A → Type 0
FieldRead R none old x = x ≡ old
FieldRead R (some av) old x = R av x

module _ (F : Formats) where
  -- x, which was old before, is what the attribute says: an integer is the number of its text. Times
  -- and types with methods of their own are not told here.
  abbrev mutual
    pub IsRead : (t : GoType) → El t → AttributeValue → El t → Type 0
    IsRead (int_type w) old av x = (s : Bytes) × ((av ≡ type_n s) × (parse_int s ≡ some x))
    IsRead (uint_type w) old av x = (s : Bytes) × ((av ≡ type_n s) × (parse_uint s ≡ some x))
    IsRead float64_type old av x = (s : Bytes) × ((av ≡ type_n s) × (F.parse_float s ≡ some x))
    IsRead string_type old av x = av ≡ type_s x
    IsRead bool_type old av x = av ≡ type_bool x
    IsRead (slice_of t) old av x = Sliced (IsRead t (zero_value t)) av x
    IsRead (pointer_to t) old av x = Pointed (is_pointer t) (IsRead t (before t old) av) av x
    IsRead (map_of k t) old av x = Mapped (IsRead t (zero_value t)) av x
    IsRead (struct_of fs) old av x = (m : Item) × ((av ≡ type_m m) × AreRead fs m old x)
    IsRead float32_type old av x = Unit
    IsRead time_type old av x = Unit
    IsRead (custom_type c fs) old av x = Unit
    IsRead defined_bytes old av x = Unit
    IsRead interface_type old av x = ⊥
    IsRead other_type old av x = ⊥

    pub AreRead : (fs : FieldTypes) → Item → Fields fs → Fields fs → Type 0
    AreRead no_fields item old x = Unit
    AreRead (field sf t fs) item (old, olds) (x, xs) =
        FieldRead (IsRead t old) (named_attribute (build_field sf) item) old x
        × AreRead fs item olds xs
