-- ===== src/Codec/Marshal.antt =====
-- marshal.go: Marshal.
use dynago.Prelude.{
  ℕ, Bool, true, false, not, ◌&&◌, List, [], ◌∷◌, Bytes, Option, none, some, map, Result, ok, err,
  validation, panic, ◌>>=◌, ◌==◌, if◌then◌else◌,
}
use dynago.Attribute.{
  AttributeValue, Values, Item, no_values, value, no_attrs, type_s, type_n, type_b, type_bool,
  type_null, type_l, type_m, type_ss, type_ns, type_bs,
}
use dynago.Attribute.Items.{set_attr}
use dynago.Expr.Floats.{format_int}
use dynago.Client.Values.{ℤ, pos, negsuc, format_signed}
use dynago.Codec.Tags.{FieldOptions, no_options, build_field}
use dynago.Codec.Numbers.{Formats}
use dynago.Codec.Types.{
  w8, Instant, KeyType, other_key, GoType, FieldTypes, El, Fields, string_type, bool_type,
  time_type, int_type, uint_type, float32_type, float64_type, slice_of, pointer_to, defined_bytes,
  map_of, struct_of, custom_type, interface_type, other_type, no_fields, field,
}

-- The methods of the types that bring their own: MarshalDynamo of a value, and UnmarshalDynamo as
-- what it makes of the value it is called on.
pub record Methods : Type 0 where
  pub marshal_dynamo : ℕ → (fs : FieldTypes) → Fields fs → Result AttributeValue
  pub unmarshal_dynamo : ℕ → (fs : FieldTypes) → AttributeValue → Fields fs → Result (Fields fs)

is_zero_int : ℤ → Bool
is_zero_int (pos n) = n == 0
is_zero_int (negsuc n) = false

-- time.Time.IsZero
is_zero_time : Instant → Bool
is_zero_time t = elim t.seconds [ pos n ↦ false | negsuc n ↦ n == 62135596799 && t.nanos == 0 ]

-- IsNil or Len() == 0
is_empty_slice : {A : Type 0} → Option (List A) → Bool
is_empty_slice none = true
is_empty_slice (some []) = true
is_empty_slice (some (x ∷ xs)) = false

is_nil : {A : Type 0} → Option A → Bool
is_nil none = true
is_nil (some x) = false

unfoldable pub marshal_list : {A : Type 0} → (A → Result AttributeValue) → List A → Result Values
marshal_list f [] = ok no_values
marshal_list f (x ∷ xs) = do av ← f x; rest ← marshal_list f xs; ok (value av rest)

unfoldable pub marshal_pairs :
    {A : Type 0} → (A → Result AttributeValue) → List (Bytes × A) → Item → Result Item
marshal_pairs f [] m = ok m
marshal_pairs f ((k, x) ∷ xs) m = do av ← f x; marshal_pairs f xs (set_attr k av m)

-- Bytes() of a slice that may be nil
unfoldable pub content : Option Bytes → Bytes
content none = []
content (some s) = s

module _ (F : Formats) (M : Methods) where
  -- isZero
  unfoldable pub is_zero : (t : GoType) → El t → Bool
  unfolding is_zero_int is_zero_time is_empty_slice is_nil
  is_zero string_type [] = true
  is_zero string_type (c ∷ s) = false
  is_zero bool_type b = not b
  is_zero time_type t = is_zero_time t
  is_zero (int_type w) n = is_zero_int n
  is_zero (uint_type w) n = n == 0
  is_zero float32_type f = F.float_is_zero f
  is_zero float64_type f = F.float_is_zero f
  is_zero (slice_of t) xs = is_empty_slice xs
  is_zero (pointer_to t) p = is_nil p
  is_zero defined_bytes b = is_empty_slice b
  is_zero (map_of k t) m = is_empty_slice m
  is_zero (struct_of fs) x = false
  is_zero (custom_type c fs) x = false
  is_zero interface_type held = not held
  is_zero other_type x = false

  -- marshalTime
  unfoldable pub marshal_time : FieldOptions → Instant → AttributeValue
  marshal_time o t =
      if o.unix_time then type_n (format_signed t.seconds) else type_s (F.format_time t)

  -- marshalSet
  unfoldable pub marshal_set : (t : GoType) → List (El t) → Result AttributeValue
  unfolding content format_signed
  marshal_set string_type ss = ok (type_ss ss)
  marshal_set (slice_of (uint_type w8)) bs = ok (type_bs (map content bs))
  marshal_set (int_type w) ns = ok (type_ns (map format_signed ns))
  marshal_set (uint_type w) ns = ok (type_ns (map format_int ns))
  marshal_set float32_type fs = ok (type_ns (map F.format64 fs))
  marshal_set float64_type fs = ok (type_ns (map F.format64 fs))
  marshal_set t xs = err validation

  -- The elements of a slice of type []byte.
  unfoldable pub as_bytes : (t : GoType) → Option (List (El t)) → Option Bytes
  as_bytes (uint_type w8) xs = some (content xs)
  as_bytes t xs = none

  -- marshalSlice, with the way its elements are marshalled
  unfoldable pub marshal_slice :
      (t : GoType)
      → (El t → Result AttributeValue)
      → FieldOptions
      → Option (List (El t))
      → Result AttributeValue
  unfolding marshal_set as_bytes marshal_list
  marshal_slice t f o xs = elim (as_bytes t xs) [
    | some b ↦ ok (type_b b)
    | none ↦ elim xs [
      | none ↦ ok (type_null true)
      | some ys ↦ if o.as_set then marshal_set t ys else do vs ← marshal_list f ys; ok (type_l vs)
    ]
  ]

  -- marshalSlice of a defined type whose elements are bytes, which is not byteSliceType
  unfoldable pub marshal_defined : FieldOptions → Option Bytes → Result AttributeValue
  unfolding marshal_set marshal_list
  marshal_defined o none = ok (type_null true)
  marshal_defined o (some b) =
      if o.as_set
      then marshal_set (uint_type w8) b
      else do vs ← marshal_list (λ n. ok (type_n (format_int n))) b; ok (type_l vs)

  -- marshalMap, with the way its values are marshalled
  unfoldable pub marshal_map :
      {A : Type 0}
      → KeyType
      → (A → Result AttributeValue)
      → Option (List (Bytes × A))
      → Result AttributeValue
  unfolding marshal_pairs
  marshal_map k f none = ok (type_null true)
  marshal_map other_key f (some xs) = err validation
  marshal_map k f (some xs) = do m ← marshal_pairs f xs no_attrs; ok (type_m m)

  -- A nil pointer holds the methods of what it would point to, and calling one of a value panics.
  unfoldable pub marshal_nil : GoType → Result AttributeValue
  marshal_nil (custom_type c fs) = err panic
  marshal_nil t = ok (type_null true)

  -- What becomes of a field: nothing when it is omitted.
  unfoldable pub marshal_unless : Bool → Result AttributeValue → Result (Option AttributeValue)
  marshal_unless true r = ok none
  marshal_unless false r = do av ← r; ok (some av)

  -- out[name] = av, of a field that is not omitted
  unfoldable pub set_field : Bytes → Option AttributeValue → Item → Item
  set_field k none m = m
  set_field k (some av) m = set_attr k av m

  -- The two `continue` of the loops: a field that is left out of the item is a nil pointer, or a zero
  -- value under omitempty.
  unfoldable pub is_omitted : (t : GoType) → FieldOptions → El t → Bool
  unfolding is_zero
  is_omitted (pointer_to t) o none = true
  is_omitted (pointer_to t) o (some x) = o.omit_empty && is_zero t x
  is_omitted t o x = o.omit_empty && is_zero t x

  unfoldable mutual
    unfolding is_omitted marshal_time marshal_slice marshal_map marshal_unless set_field marshal_nil
        marshal_defined

    -- marshalValue
    pub marshal_value : (t : GoType) → FieldOptions → El t → Result AttributeValue
    marshal_value string_type o s = ok (type_s s)
    marshal_value bool_type o b = ok (type_bool b)
    marshal_value time_type o t = ok (marshal_time o t)
    marshal_value (int_type w) o n = ok (type_n (format_signed n))
    marshal_value (uint_type w) o n = ok (type_n (format_int n))
    marshal_value float32_type o f = ok (type_n (F.format32 f))
    marshal_value float64_type o f = ok (type_n (F.format64 f))
    marshal_value (slice_of t) o xs = marshal_slice t (λ x. marshal_value t no_options x) o xs
    marshal_value defined_bytes o b = marshal_defined o b
    marshal_value (map_of k t) o m = marshal_map k (λ x. marshal_value t no_options x) m
    marshal_value (struct_of fs) o x = do m ← marshal_fields fs x no_attrs; ok (type_m m)
    marshal_value (pointer_to t) o none = marshal_nil t
    marshal_value (pointer_to t) o (some x) = marshal_value t o x
    marshal_value (custom_type c fs) o x = M.marshal_dynamo c fs x
    marshal_value interface_type o held = err validation
    marshal_value other_type o x = err validation

    -- The loops of Marshal and of marshalStruct, into the item built so far. marshalValue gives the
    -- same for a pointer that is not nil and for what that points to.
    pub marshal_fields : (fs : FieldTypes) → Fields fs → Item → Result Item
    marshal_fields no_fields x m = ok m
    marshal_fields (field sf t fs) (x, xs) m = elim (build_field sf) [
      | none ↦ marshal_fields fs xs m
      | some o ↦ do
        av ← marshal_unless (is_omitted t o x) (marshal_value t o x)
        marshal_fields fs xs (set_field o.name av m)
    ]

  -- Marshal. A time.Time is a struct without exported fields.
  unfoldable pub marshal : (t : GoType) → El t → Result Item
  unfolding marshal_value
  marshal (pointer_to t) none = err validation
  marshal (pointer_to t) (some x) = marshal t x
  marshal (struct_of fs) x = marshal_fields fs x no_attrs
  marshal (custom_type c fs) x = marshal_fields fs x no_attrs
  marshal time_type x = ok no_attrs
  marshal t x = err validation
