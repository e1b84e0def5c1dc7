-- ===== src/Codec/Unmarshal.antt =====
-- unmarshal.go: Unmarshal. What it leaves in `out` when it fails is left out. A message of
-- fmt.Errorf is the error `expression`.
use dynago.Prelude.{
  ℕ, Bool, true, false, List, [], ◌∷◌, Bytes, Option, none, some, map, Result, ok, err, validation,
  expression, panic, ◌>>=◌, if◌then◌else◌,
}
use dynago.Attribute.{
  AttributeValue, Values, Item, no_values, value, no_attrs, attr, type_s, type_n, type_b, type_bool,
  type_null, type_l, type_m, type_ss, type_ns, type_bs,
}
use dynago.Attribute.Items.{get_attr}
use dynago.Client.Values.{ℤ}
use dynago.Codec.Marshal.{Methods}
use dynago.Codec.Numbers.{Formats, parse_int, parse_uint, fits_int, fits_uint, set_int, set_uint}
use dynago.Codec.Tags.{FieldOptions, no_options, build_field}
use dynago.Codec.Types.{
  Width, w8, Instant, KeyType, string_key, defined_string_key, other_key, GoType, FieldTypes, El,
  Fields, string_type, bool_type, time_type, int_type, uint_type, float32_type, float64_type,
  slice_of, pointer_to, defined_bytes, map_of, struct_of, custom_type, interface_type, other_type,
  no_fields, field, zero_value,
}

-- The checks of av.Type, with the field that the variant populates.
unfoldable pub text_of : AttributeValue → Result Bytes
text_of (type_s s) = ok s
text_of av = err expression

unfoldable pub number_of : AttributeValue → Result Bytes
number_of (type_n n) = ok n
number_of av = err expression

unfoldable pub binary_of : AttributeValue → Result Bytes
binary_of (type_b b) = ok b
binary_of av = err expression

unfoldable pub truth_of : AttributeValue → Result Bool
truth_of (type_bool b) = ok b
truth_of av = err expression

unfoldable pub list_of : AttributeValue → Result Values
list_of (type_l vs) = ok vs
list_of av = err expression

unfoldable pub item_value_of : AttributeValue → Result Item
item_value_of (type_m m) = ok m
item_value_of av = err expression

-- av.Type == TypeNULL && av.NULL
unfoldable pub is_null : AttributeValue → Bool
is_null (type_null b) = b
is_null av = false

-- A step that fails makes the caller fail with an error of its own.
unfoldable pub required : {A : Type 0} → Option A → Result A
required none = err expression
required (some x) = ok x

unfoldable pub read_int : Width → Bytes → Result ℤ
unfolding required fits_int set_int
read_int w s = do
  n ← required (parse_int s)
  if fits_int w n then ok (set_int w n) else err expression

unfoldable pub read_uint : Width → Bytes → Result ℕ
unfolding required fits_uint set_uint
read_uint w s = do
  n ← required (parse_uint s)
  if fits_uint w n then ok (set_uint w n) else err expression

unfoldable pub unmarshal_list :
    {A : Type 0} → (AttributeValue → Result A) → Values → Result (List A)
unmarshal_list f no_values = ok []
unmarshal_list f (value av vs) = do x ← f av; xs ← unmarshal_list f vs; ok (x ∷ xs)

unfoldable pub unmarshal_texts : {A : Type 0} → (Bytes → Result A) → List Bytes → Result (List A)
unmarshal_texts f [] = ok []
unmarshal_texts f (s ∷ ss) = do x ← f s; xs ← unmarshal_texts f ss; ok (x ∷ xs)

unfoldable pub unmarshal_pairs :
    {A : Type 0} → (AttributeValue → Result A) → Item → Result (List (Bytes × A))
unmarshal_pairs f no_attrs = ok []
unmarshal_pairs f (attr k av m) = do x ← f av; xs ← unmarshal_pairs f m; ok ((k, x) ∷ xs)

-- unmarshalMap, with the way its values are unmarshalled. SetMapIndex takes no string as a key of a
-- defined type, and panics.
unfoldable pub unmarshal_map :
    {A : Type 0} → KeyType → (AttributeValue → Result A) → Item → Result (Option (List (Bytes × A)))
unfolding unmarshal_pairs
unmarshal_map string_key f m = do xs ← unmarshal_pairs f m; ok (some xs)
unmarshal_map defined_string_key f no_attrs = ok (some [])
unmarshal_map defined_string_key f (attr k av m) = do x ← f av; err panic
unmarshal_map other_key f m = err expression

-- The error of a field is told in the message of a validation error.
unfoldable pub in_field : {A : Type 0} → Result A → Result A
in_field (ok x) = ok x
in_field (err panic) = err panic
in_field (err e) = err validation

-- A slice of bytes, if the elements are of kind Uint8.
unfoldable pub of_bytes : (t : GoType) → Bytes → Option (List (El t))
of_bytes (uint_type w8) b = some b
of_bytes t b = none

-- SetBytes for each of a list, if the elements are slices of bytes
unfoldable pub of_byte_slices : (t : GoType) → List Bytes → Result (List (El t))
of_byte_slices (slice_of (uint_type w8)) bs = ok (map some bs)
of_byte_slices defined_bytes bs = ok (map some bs)
of_byte_slices t bs = err expression

-- reflect.New(t).Elem() unless the pointer holds something
unfoldable pub pointee : (t : GoType) → Option (El t) → El t
pointee t none = zero_value t
pointee t (some x) = x

module _ (F : Formats) (M : Methods) where
  -- SetFloat on a float32 or a float64
  unfoldable pub read_float32 : Bytes → Result ℕ
  unfolding required
  read_float32 s = do
    f ← required (F.parse_float s)
    if F.exceeds32 f then err expression else ok (F.narrow f)

  unfoldable pub unmarshal_time : FieldOptions → AttributeValue → Result Instant
  unfolding required number_of text_of
  unmarshal_time o av = elim o.unix_time [
    | true ↦ do s ← number_of av; n ← required (parse_int s); ok (record { seconds = n; nanos = 0 })
    | false ↦ do
      s ← text_of av
      elim (F.parse_nano s) [ some t ↦ ok t | none ↦ required (F.parse_seconds s) ]
  ]

  -- One element of NS. No width is checked.
  unfoldable pub set_number : (t : GoType) → Bytes → Result (El t)
  unfolding required set_int set_uint
  set_number (int_type w) s = do n ← required (parse_int s); ok (set_int w n)
  set_number (uint_type w) s = do n ← required (parse_uint s); ok (set_uint w n)
  set_number float32_type s = do f ← required (F.parse_float s); ok (F.narrow f)
  set_number float64_type s = required (F.parse_float s)
  set_number t s = err expression

  -- A set of strings, of which only a []string is made.
  unfoldable pub of_texts : (t : GoType) → List Bytes → Result (List (El t))
  of_texts string_type ss = ok ss
  of_texts t ss = err expression

  -- unmarshalSet
  unfoldable pub unmarshal_set : (t : GoType) → AttributeValue → Result (List (El t))
  unfolding of_texts set_number unmarshal_texts of_byte_slices
  unmarshal_set t (type_ss ss) = of_texts t ss
  unmarshal_set t (type_ns ns) = unmarshal_texts (set_number t) ns
  unmarshal_set t (type_bs bs) = of_byte_slices t bs
  unmarshal_set t av = err expression

  -- unmarshalSlice, with the way its elements are unmarshalled
  unfoldable pub unmarshal_slice :
      (t : GoType)
      → (AttributeValue → Result (El t))
      → FieldOptions
      → AttributeValue
      → Result (Option (List (El t)))
  unfolding of_bytes binary_of unmarshal_set list_of unmarshal_list required
  unmarshal_slice t f o av = elim (of_bytes t []) [
    | some b ↦ do s ← binary_of av; xs ← required (of_bytes t s); ok (some xs)
    | none ↦ elim o.as_set [
      | true ↦ do xs ← unmarshal_set t av; ok (some xs)
      | false ↦ do vs ← list_of av; xs ← unmarshal_list f vs; ok (some xs)
    ]
  ]

  -- What a pointer points to, with `r` what is unmarshalled there. A second pointer is not followed,
  -- but it has the methods of a custom type, which panic when it is nil.
  unfoldable pub followed : (t : GoType) → AttributeValue → El t → Result (El t) → Result (El t)
  followed (pointer_to (custom_type c fs)) av none r = err panic
  followed (pointer_to (custom_type c fs)) av (some x) r = do
    y ← M.unmarshal_dynamo c fs av x
    ok (some y)
  followed (pointer_to t) av x r = err expression
  followed t av x r = r

  unfoldable mutual
    unfolding text_of number_of truth_of list_of item_value_of binary_of is_null required read_int
        read_uint read_float32 unmarshal_time unmarshal_slice unmarshal_map in_field pointee
        followed

    -- unmarshalValue, of a variable that holds the last argument
    pub unmarshal_value : (t : GoType) → FieldOptions → AttributeValue → El t → Result (El t)
    unmarshal_value (pointer_to t) o av old =
        let r = unmarshal_value t o av (pointee t old) in
        if is_null av then ok none else do x ← followed t av (pointee t old) r; ok (some x)
    unmarshal_value (custom_type c fs) o av old = M.unmarshal_dynamo c fs av old
    unmarshal_value time_type o av old = unmarshal_time o av
    unmarshal_value string_type o av old = text_of av
    unmarshal_value bool_type o av old = truth_of av
    unmarshal_value (int_type w) o av old = do s ← number_of av; read_int w s
    unmarshal_value (uint_type w) o av old = do s ← number_of av; read_uint w s
    unmarshal_value float32_type o av old = do s ← number_of av; read_float32 s
    unmarshal_value float64_type o av old = do s ← number_of av; required (F.parse_float s)
    unmarshal_value (slice_of t) o av old =
        unmarshal_slice t (λ v. unmarshal_value t no_options v (zero_value t)) o av
    unmarshal_value defined_bytes o av old = do b ← binary_of av; ok (some b)
    unmarshal_value (map_of k t) o av old = do
      m ← item_value_of av
      unmarshal_map k (λ v. unmarshal_value t no_options v (zero_value t)) m
    unmarshal_value (struct_of fs) o av old = do m ← item_value_of av; unmarshal_fields fs m old
    unmarshal_value interface_type o av old = err expression
    unmarshal_value other_type o av old = err expression

    -- The loop of Unmarshal.
    pub unmarshal_fields : (fs : FieldTypes) → Item → Fields fs → Result (Fields fs)
    unmarshal_fields no_fields item old = ok old
    unmarshal_fields (field sf t fs) item (old, olds) = do
      x ← elim (build_field sf) [
        | none ↦ ok old
        | some o ↦ elim (get_attr o.name item) [
          | none ↦ ok old
          | some av ↦ in_field (unmarshal_value t o av old)
        ]
      ]
      xs ← unmarshal_fields fs item olds
      ok (x, xs)

  -- Unmarshal. The type is that of `out`.
  unfoldable pub unmarshal : (t : GoType) → Item → El t → Result (El t)
  unfolding unmarshal_value
  unmarshal (pointer_to (struct_of fs)) item (some old) = do
    x ← unmarshal_fields fs item old
    ok (some x)
  unmarshal (pointer_to (custom_type c fs)) item (some old) = do
    x ← unmarshal_fields fs item old
    ok (some x)
  unmarshal (pointer_to time_type) item (some t) = ok (some t)
  unmarshal t item old = err validation
