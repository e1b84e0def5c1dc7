-- ===== src/Codec/Kept.antt =====
-- The values that an item keeps: those that marshal.go writes in full and unmarshal.go reads.
use dynago.Prelude.{
  ℕ, ◌≡◌, ◌≢◌, Bool, true, false, ◌||◌, List, [], ◌∷◌, Bytes, Option, none, some, ok, ◌≟◌,
}
use dynago.Attribute.{AttributeValue}
use dynago.Codec.Marshal.{Methods, is_omitted}
use dynago.Codec.Numbers.{Formats, fits_int, fits_uint}
use dynago.Codec.Tags.{FieldOptions, no_options, build_field}
use dynago.Codec.Types.{
  w8, w64, Instant, KeyType, string_key, GoType, FieldTypes, El, Fields, string_type, bool_type,
  time_type, int_type, uint_type, float32_type, float64_type, slice_of, pointer_to, defined_bytes,
  map_of, struct_of, custom_type, interface_type, other_type, no_fields, field, zero_value,
  zero_fields,
}
use dynago.Codec.Unmarshal.{is_null}

abbrev pub Each : {A : Type 0} → (A → Type 0) → List A → Type 0
Each P [] = Unit
Each P (x ∷ xs) = P x × Each P xs

unfoldable pub has_key : {A : Type 0} → Bytes → List (Bytes × A) → Bool
has_key k [] = false
has_key k ((j, x) ∷ xs) = j ≟ k || has_key k xs

-- Pairs with different keys, whose values satisfy `P`.
abbrev pub EachPair : {A : Type 0} → (A → Type 0) → List (Bytes × A) → Type 0
EachPair P [] = Unit
EachPair P ((k, x) ∷ xs) = (has_key k xs ≡ false) × P x × EachPair P xs

-- Whether a field of the codec has this attribute name.
unfoldable pub has_name : Bytes → FieldTypes → Bool
has_name k no_fields = false
has_name k (field sf t fs) = elim (build_field sf) [
  | none ↦ has_name k fs
  | some o ↦ o.name ≟ k || has_name k fs
]

unfoldable pub is_pointer : GoType → Bool
is_pointer (pointer_to t) = true
is_pointer t = false

unfoldable pub is_custom : GoType → Bool
is_custom (custom_type c fs) = true
is_custom t = false

module _ (F : Formats) (M : Methods) where
  abbrev pub IsKeptTime : Bool → Instant → Type 0
  IsKeptTime true t = (fits_int w64 t.seconds ≡ true) × (t.nanos ≡ 0)
  IsKeptTime false t = F.parse_nano (F.format_time t) ≡ some t

  -- A float32 whose print, as 32 or as 64 bits, reads back to it.
  abbrev pub IsKeptFloat : Bytes → ℕ → Type 0
  IsKeptFloat s f =
      (g : ℕ) × (F.parse_float s ≡ some g) × (F.exceeds32 g ≡ false) × (F.narrow g ≡ f)

  abbrev pub IsKeptSet : (t : GoType) → List (El t) → Type 0
  IsKeptSet string_type ss = Unit
  IsKeptSet (slice_of (uint_type w8)) bs = Each (λ b. b ≢ none) bs
  IsKeptSet (int_type w) ns = Each (λ n. fits_int w n ≡ true) ns
  IsKeptSet (uint_type w) ns = Each (λ n. fits_uint w n ≡ true) ns
  IsKeptSet float32_type fs = Each (λ f. IsKeptFloat (F.format64 f) f) fs
  IsKeptSet float64_type fs = Each (λ f. F.parse_float (F.format64 f) ≡ some f) fs
  IsKeptSet t xs = ⊥

  -- A slice that is not nil: of bytes, tagged as a set, or a list.
  abbrev pub IsKeptSlice : (t : GoType) → (El t → Type 0) → Bool → Option (List (El t)) → Type 0
  IsKeptSlice t P as_set none = ⊥
  IsKeptSlice (uint_type w8) P as_set (some xs) = Unit
  IsKeptSlice t P true (some xs) = IsKeptSet t xs
  IsKeptSlice t P false (some xs) = Each P xs

  abbrev pub IsKeptMap : {A : Type 0} → KeyType → (A → Type 0) → Option (List (Bytes × A)) → Type 0
  IsKeptMap string_key P (some xs) = EachPair P xs
  IsKeptMap k P m = ⊥

  -- A pointer inside a slice or a map, or the field of a struct.
  abbrev pub IsKeptPointer : (t : GoType) → (El t → Type 0) → Option (El t) → Type 0
  IsKeptPointer t P none = is_custom t ≡ false
  IsKeptPointer t P (some x) = (is_pointer t ≡ false) × P x

  abbrev pub IsKeptField :
      (t : GoType)
      → FieldTypes
      → (FieldOptions → El t → Type 0)
      → Option FieldOptions
      → El t
      → Type 0
  IsKeptField t fs P none x = x ≡ zero_value t
  IsKeptField t fs P (some o) x =
      (has_name o.name fs ≡ false)
      × elim (is_omitted F M t o x) [ true ↦ x ≡ zero_value t | false ↦ P o x ]

  abbrev mutual
    pub IsKept : (t : GoType) → FieldOptions → El t → Type 0
    IsKept string_type o s = Unit
    IsKept bool_type o b = Unit
    IsKept time_type o t = IsKeptTime o.unix_time t
    IsKept (int_type w) o n = fits_int w n ≡ true
    IsKept (uint_type w) o n = fits_uint w n ≡ true
    IsKept float32_type o f = IsKeptFloat (F.format32 f) f
    IsKept float64_type o f = F.parse_float (F.format64 f) ≡ some f
    IsKept (slice_of t) o xs = IsKeptSlice t (λ x. IsKept t no_options x) o.as_set xs
    IsKept defined_bytes o b = ⊥
    IsKept (map_of k t) o m = IsKeptMap k (λ x. IsKept t no_options x) m
    IsKept (struct_of fs) o x = AreKept fs x
    IsKept (pointer_to t) o p = IsKeptPointer t (λ x. IsKept t o x) p
    IsKept (custom_type c fs) o x =
        (av : AttributeValue) × (M.marshal_dynamo c fs x ≡ ok av)
        × (M.unmarshal_dynamo c fs av (zero_fields fs) ≡ ok x)
        × (is_null av ≡ false)
    IsKept interface_type o x = ⊥
    IsKept other_type o x = ⊥

    pub AreKept : (fs : FieldTypes) → Fields fs → Type 0
    AreKept no_fields x = Unit
    AreKept (field sf t fs) (x, xs) =
        IsKeptField t fs (λ o y. IsKept t o y) (build_field sf) x × AreKept fs xs
