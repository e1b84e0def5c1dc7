-- ===== src/Codec/RoundTrip/Slices.antt =====
-- marshal.go, unmarshal.go: sets, slices and maps.
use dynago.Prelude.{
  ℕ, ◌≡◌, refl, sym, ap, Bool, true, false, List, [], Bytes, Option, none, some, map, Result, ok,
  ◌⊎◌, inl, inr,
}
use dynago.Attribute.{AttributeValue, Item, type_b, type_l, type_m, type_ss, type_ns, type_bs}
use dynago.Expr.Floats.{format_int}
use dynago.Client.Values.{ℤ, format_signed}
use dynago.Codec.Kept.{Each, IsKeptFloat, IsKeptSet, IsKeptSlice, IsKeptMap}
use dynago.Codec.Marshal.{Methods, marshal_set, marshal_slice, as_bytes, marshal_map, content}
use dynago.Codec.Numbers.{Formats, fits_int, fits_uint}
use dynago.Codec.Numbers.Digits.{
  fits_int_wider, fits_uint_wider, parse_int-format_signed, parse_uint-format_int, set_int_fits,
  set_uint_fits,
}
use dynago.Codec.Tags.{FieldOptions}
use dynago.Codec.Types.{
  Width, w8, w16, w32, w64, KeyType, string_key, defined_string_key, other_key, GoType, El,
  string_type, bool_type, time_type, int_type, uint_type, float32_type, float64_type, slice_of,
  pointer_to, defined_bytes, map_of, struct_of, custom_type, interface_type, other_type,
}
use dynago.Codec.Unmarshal.{
  is_null, of_bytes, required, set_number, unmarshal_slice, unmarshal_set, unmarshal_map, list_of,
  binary_of, of_texts, of_byte_slices,
}
use dynago.Codec.RoundTrip.Lists.{IsBack, list_back, pairs_back, texts_back, contents_back}
use mathlib.Core.Path.{subst}

-- What holds of a type that is not the type of bytes.
abbrev IsNotByte : (F : Formats) → Methods → GoType → Type 1
IsNotByte F M t =
    ((xs : Option (List (El t))) → as_bytes F M t xs ≡ none)
    × ((b : Bytes) → of_bytes t b ≡ none)
    × ((P : El t → Type 0) (xs : List (El t))
        → IsKeptSlice F M t P true (some xs)
        → IsKeptSet F M t xs)
    × ((P : El t → Type 0) (xs : List (El t)) → IsKeptSlice F M t P false (some xs) → Each P xs)
    × ((bs : List (Option (List (El t)))) → IsKeptSet F M (slice_of t) bs → ⊥)

byte_or_not : (F : Formats) (M : Methods) (t : GoType) → (t ≡ uint_type w8) ⊎ IsNotByte F M t
unfolding as_bytes of_bytes
byte_or_not F M (uint_type w8) = inl refl
byte_or_not F M string_type = inr (λ xs. refl, λ b. refl, λ P xs k. k, λ P xs k. k, λ bs k. k)
byte_or_not F M bool_type = inr (λ xs. refl, λ b. refl, λ P xs k. k, λ P xs k. k, λ bs k. k)
byte_or_not F M time_type = inr (λ xs. refl, λ b. refl, λ P xs k. k, λ P xs k. k, λ bs k. k)
byte_or_not F M (int_type w) = inr (λ xs. refl, λ b. refl, λ P xs k. k, λ P xs k. k, λ bs k. k)
byte_or_not F M (uint_type w16) = inr (λ xs. refl, λ b. refl, λ P xs k. k, λ P xs k. k, λ bs k. k)
byte_or_not F M (uint_type w32) = inr (λ xs. refl, λ b. refl, λ P xs k. k, λ P xs k. k, λ bs k. k)
byte_or_not F M (uint_type w64) = inr (λ xs. refl, λ b. refl, λ P xs k. k, λ P xs k. k, λ bs k. k)
byte_or_not F M float32_type = inr (λ xs. refl, λ b. refl, λ P xs k. k, λ P xs k. k, λ bs k. k)
byte_or_not F M float64_type = inr (λ xs. refl, λ b. refl, λ P xs k. k, λ P xs k. k, λ bs k. k)
byte_or_not F M (slice_of t) = inr (λ xs. refl, λ b. refl, λ P xs k. k, λ P xs k. k, λ bs k. k)
byte_or_not F M (pointer_to t) = inr (λ xs. refl, λ b. refl, λ P xs k. k, λ P xs k. k, λ bs k. k)
byte_or_not F M defined_bytes = inr (λ xs. refl, λ b. refl, λ P xs k. k, λ P xs k. k, λ bs k. k)
byte_or_not F M (map_of k t) = inr (λ xs. refl, λ b. refl, λ P xs k. k, λ P xs k. k, λ bs k. k)
byte_or_not F M (struct_of fs) = inr (λ xs. refl, λ b. refl, λ P xs k. k, λ P xs k. k, λ bs k. k)
byte_or_not F M (custom_type c fs) =
    inr (λ xs. refl, λ b. refl, λ P xs k. k, λ P xs k. k, λ bs k. k)
byte_or_not F M interface_type = inr (λ xs. refl, λ b. refl, λ P xs k. k, λ P xs k. k, λ bs k. k)
byte_or_not F M other_type = inr (λ xs. refl, λ b. refl, λ P xs k. k, λ P xs k. k, λ bs k. k)

module _ (F : Formats) (M : Methods) where
  abbrev SetBack : (t : GoType) → List (El t) → Type 0
  SetBack t xs =
      (av : AttributeValue) × (marshal_set F M t xs ≡ ok av)
      × (unmarshal_set F M t av ≡ ok xs)
      × (is_null av ≡ false)

  bytes_in_set :
      (bs : List (Option Bytes))
      → IsKeptSet F M (slice_of (uint_type w8)) bs
      → SetBack (slice_of (uint_type w8)) bs
  unfolding marshal_set unmarshal_set of_byte_slices is_null
  bytes_in_set bs kept = (type_bs (map content bs), refl, ap ok (contents_back bs kept), refl)

  byte_slices_back :
      (t : GoType)
      → t ≡ uint_type w8
      → (bs : List (Option (List (El t)))) → IsKeptSet F M (slice_of t) bs
      → SetBack (slice_of t) bs
  byte_slices_back t e =
      subst
        (λ u.
          (bs : List (Option (List (El u))))
          → IsKeptSet F M (slice_of u) bs
          → SetBack (slice_of u) bs)
        (sym e) bytes_in_set

  set_int_back :
      (w : Width) (n : ℤ)
      → fits_int w n ≡ true
      → set_number F M (int_type w) (format_signed n) ≡ ok n
  unfolding set_number required
  set_int_back w n h =
      rw (parse_int-format_signed n (fits_int_wider w n h), set_int_fits w n h) refl

  set_uint_back :
      (w : Width) (n : ℕ)
      → fits_uint w n ≡ true
      → set_number F M (uint_type w) (format_int n) ≡ ok n
  unfolding set_number required
  set_uint_back w n h =
      rw (parse_uint-format_int n (fits_uint_wider w n h), set_uint_fits w n h) refl

  set_float32_back :
      (f : ℕ) → IsKeptFloat F M (F.format64 f) f → set_number F M float32_type (F.format64 f) ≡ ok f
  unfolding set_number required
  set_float32_back f (g, parsed, fits, narrowed) = rw (parsed, narrowed) refl

  set_float64_back :
      (f : ℕ)
      → F.parse_float (F.format64 f) ≡ some f
      → set_number F M float64_type (F.format64 f) ≡ ok f
  unfolding set_number required
  set_float64_back f parsed = rw parsed refl

  pub set_back : (t : GoType) (xs : List (El t)) → IsKeptSet F M t xs → SetBack t xs
  unfolding marshal_set unmarshal_set of_texts is_null
  set_back string_type ss kept = (type_ss ss, refl, refl, refl)
  set_back (int_type w) ns kept = (
    type_ns (map format_signed ns),
    refl,
    texts_back _ format_signed _ (set_int_back w) ns kept,
    refl,
  )
  set_back (uint_type w) ns kept =
      (type_ns (map format_int ns), refl, texts_back _ format_int _ (set_uint_back w) ns kept, refl)
  set_back float32_type fs kept =
      (type_ns (map F.format64 fs), refl, texts_back _ F.format64 _ set_float32_back fs kept, refl)
  set_back float64_type fs kept =
      (type_ns (map F.format64 fs), refl, texts_back _ F.format64 _ set_float64_back fs kept, refl)
  set_back (slice_of t) bs kept = elim (byte_or_not F M t) [
    | inl same ↦ byte_slices_back t same bs kept
    | inr other ↦ absurd (other.4 bs kept)
  ]
  set_back bool_type xs kept = absurd kept
  set_back time_type xs kept = absurd kept
  set_back (pointer_to t) xs kept = absurd kept
  set_back defined_bytes xs kept = absurd kept
  set_back (map_of k t) xs kept = absurd kept
  set_back (struct_of fs) xs kept = absurd kept
  set_back (custom_type c fs) xs kept = absurd kept
  set_back interface_type xs kept = absurd kept
  set_back other_type xs kept = absurd kept

  abbrev SliceBack :
      (t : GoType)
      → (El t → Result AttributeValue)
      → (AttributeValue → Result (El t))
      → FieldOptions
      → List (El t)
      → Type 0
  SliceBack t write read o xs =
      (av : AttributeValue) × (marshal_slice F M t write o (some xs) ≡ ok av)
      × (unmarshal_slice F M t read o av ≡ ok (some xs))
      × (is_null av ≡ false)

  abbrev BytesBack : GoType → Type 0
  BytesBack t =
      (write : El t → Result AttributeValue) (read : AttributeValue → Result (El t))
      (o : FieldOptions) (xs : List (El t))
      → SliceBack t write read o xs

  bytes_back : BytesBack (uint_type w8)
  unfolding marshal_slice unmarshal_slice as_bytes of_bytes binary_of required content is_null
  bytes_back write read o b = (type_b b, refl, refl, refl)

  module _ (t : GoType) (P : El t → Type 0) (write : El t → Result AttributeValue)
      (read : AttributeValue → Result (El t)) (back : (x : El t) → P x → IsBack write read x)
      (o : FieldOptions) where
    -- A slice, tagged as a set or not, whose elements are not bytes.
    not_of_bytes :
        (b : Bool) (xs : List (El t))
        → IsNotByte F M t
        → o.as_set ≡ b
        → IsKeptSlice F M t P b (some xs)
        → SliceBack t write read o xs
    unfolding marshal_slice unmarshal_slice list_of is_null
    not_of_bytes true xs other e kept =
        let (av, written, read_back, shown) = set_back t xs (other.2 P xs kept) in
        (
          av,
          rw (marshal_slice, other.0 (some xs), e, written) refl,
          rw (unmarshal_slice, other.1 [], e, read_back) refl,
          shown,
        )
    not_of_bytes false xs other e kept =
        let (vs, written, read_back) = list_back P write read back xs (other.3 P xs kept) in
        (
          type_l vs,
          rw (marshal_slice, other.0 (some xs), e, written) refl,
          rw (unmarshal_slice, other.1 [], e, read_back) refl,
          refl,
        )

    pub slice_back :
        (xs : Option (List (El t)))
        → IsKeptSlice F M t P o.as_set xs
        → (av : AttributeValue) × (marshal_slice F M t write o xs ≡ ok av)
          × (unmarshal_slice F M t read o av ≡ ok xs)
          × (is_null av ≡ false)
    slice_back none kept = absurd kept
    slice_back (some xs) kept = elim (byte_or_not F M t) [
      | inl same ↦ subst BytesBack (sym same) bytes_back write read o xs
      | inr other ↦ not_of_bytes o.as_set xs other refl kept
    ]

pub map_back :
    {A : Type 0} (P : A → Type 0) (write : A → Result AttributeValue)
    (read : AttributeValue → Result A)
    → ((x : A) → P x → IsBack write read x)
    → (F : Formats) (M : Methods) (k : KeyType) (xs : Option (List (Bytes × A)))
    → IsKeptMap F M k P xs
    → (m : Item) × (marshal_map F M k write xs ≡ ok (type_m m)) × (unmarshal_map k read m ≡ ok xs)
unfolding marshal_map unmarshal_map
map_back P write read back F M string_key none kept = absurd kept
map_back P write read back F M string_key (some xs) kept =
    let (m, written, read_back) = pairs_back P write read back xs kept in
    (m, rw written refl, rw read_back refl)
map_back P write read back F M defined_string_key xs kept = absurd kept
map_back P write read back F M other_key xs kept = absurd kept
