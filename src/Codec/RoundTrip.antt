-- ===== src/Codec/RoundTrip.antt =====
-- marshal.go, unmarshal.go: Unmarshal after Marshal.
mod Lists
mod Scalars
mod Slices
mod Structs
use dynago.Prelude.{
  ℕ, ◌≡◌, ◌≢◌, refl, sym, ap, ◌∙◌, Bool, true, false, ◌&&◌, ◌||◌, List, [], ◌∷◌, Bytes, Option,
  none, some, map, Result, ok, ◌>>=◌, ◌≟◌, ≟_iff, arith, if◌then◌else◌, Bool-cases, inl, inr,
}
use dynago.Attribute.{
  AttributeValue, Values, Item, no_attrs, type_s, type_n, type_b, type_bool, type_null, type_l,
  type_m, type_ss, type_ns, type_bs,
}
use dynago.Attribute.Items.{get_attr, set_attr}
use dynago.Expr.Floats.{format_int}
use dynago.Client.Values.{ℤ, format_signed}
use dynago.Codec.Kept.{
  Each, IsKept, AreKept, IsKeptTime, IsKeptFloat, IsKeptSet, IsKeptSlice, IsKeptMap, IsKeptPointer,
  IsKeptField, has_name, is_pointer, is_custom,
}
use dynago.Codec.Marshal.{
  Methods, marshal_list, marshal, marshal_value, marshal_fields, marshal_set, marshal_slice,
  as_bytes, marshal_time, marshal_map, marshal_nil, marshal_unless, set_field, content, is_omitted,
}
use dynago.Codec.Numbers.{Formats, parse_int, parse_uint, fits_int, fits_uint, set_int, set_uint}
use dynago.Codec.Numbers.Digits.{
  fits_int_wider, fits_uint_wider, parse_int-format_signed, parse_uint-format_int, set_int_fits,
  set_uint_fits,
}
use dynago.Codec.Tags.{FieldOptions, no_options, StructField, build_field}
use dynago.Codec.Types.{
  Width, w8, w16, w32, w64, Instant, KeyType, string_key, defined_string_key, other_key, GoType,
  FieldTypes, El, Fields, string_type, bool_type, time_type, int_type, uint_type, float32_type,
  float64_type, slice_of, pointer_to, defined_bytes, map_of, struct_of, custom_type, interface_type,
  other_type, no_fields, field, zero_value, zero_fields,
}
use dynago.Codec.Unmarshal.{
  is_null, of_bytes, number_of, text_of, required, read_int, read_uint, read_float32, set_number,
  unmarshal_time, unmarshal_slice, unmarshal_set, unmarshal_map, unmarshal, unmarshal_value,
  unmarshal_fields, in_field, pointee, followed, list_of, item_value_of, binary_of, of_texts,
  of_byte_slices,
}
use dynago.Codec.RoundTrip.Lists.{IsBack, other_name, set_attr_there, get_attr-set_attr_other}
use dynago.Codec.RoundTrip.Scalars.{
  read_int-format_signed, read_uint-format_int, read_float32_back, time_at,
}
use dynago.Codec.RoundTrip.Slices.{slice_back, map_back}
use dynago.Codec.RoundTrip.Structs.{
  ValueBack, FieldsBack, IsFresh, nil_back, pointer_back, any_field,
}

module _ (F : Formats) (M : Methods) where
  mutual
    unfolding marshal_value unmarshal_value get_attr is_null

    value_back : (t : GoType) (o : FieldOptions) (x : El t) → IsKept F M t o x → ValueBack F M t o x
    value_back string_type o s kept = (type_s s, refl, refl, λ h. refl)
    value_back bool_type o b kept = (type_bool b, refl, refl, λ h. refl)
    value_back time_type o t kept =
        let (read, shown) = time_at F M o.unix_time o t refl kept in (_, refl, read, λ h. shown)
    value_back (int_type w) o n kept = (_, refl, read_int-format_signed w n kept, λ h. refl)
    value_back (uint_type w) o n kept = (_, refl, read_uint-format_int w n kept, λ h. refl)
    value_back float32_type o f kept = (_, refl, read_float32_back F M _ f kept, λ h. refl)
    value_back float64_type o f kept = (_, refl, rw kept refl, λ h. refl)
    value_back (slice_of t) o xs kept =
        let back : (x : El t)
            → IsKept F M t no_options x
            → IsBack (λ y. marshal_value F M t no_options y)
                (λ v. unmarshal_value F M t no_options v (zero_value t)) x =
          λ x kept.
            let (av, written, read, shown) = value_back t no_options x kept in
            (av, written, read) in
        let (av, written, read, shown) = slice_back F M t _ _ _ back o xs kept in
        (av, written, read, λ h. shown)
    value_back defined_bytes o b kept = absurd kept
    value_back (map_of k t) o xs kept =
        let back : (x : El t)
            → IsKept F M t no_options x
            → IsBack (λ y. marshal_value F M t no_options y)
                (λ v. unmarshal_value F M t no_options v (zero_value t)) x =
          λ x kept.
            let (av, written, read, shown) = value_back t no_options x kept in
            (av, written, read) in
        let (m, written, read) = map_back _ _ _ back F M k xs kept in
        (type_m m, written, read, λ h. refl)
    value_back (struct_of fs) o x kept =
        let (m, written, read, rest) = fields_back fs x no_attrs kept (λ k h. refl) in
        (type_m m, rw written refl, read, λ h. refl)
    value_back (pointer_to t) o none kept = nil_back F M t o kept
    value_back (pointer_to t) o (some x) (h, kept) =
        pointer_back F M t o x h (value_back t o x kept)
    value_back (custom_type c fs) o x (av, written, read, shown) = (av, written, read, λ h. shown)
    value_back interface_type o x kept = absurd kept
    value_back other_type o x kept = absurd kept

    fields_back :
        (fs : FieldTypes) (x : Fields fs) (acc : Item)
        → AreKept F M fs x
        → IsFresh F M fs acc
        → FieldsBack F M fs x acc
    fields_back no_fields x acc kept fresh = (acc, refl, refl, λ k h. refl)
    fields_back (field sf t fs) (x, xs) acc (here, kept) fresh =
        any_field F M sf t fs x xs acc (λ m h. fields_back fs xs m kept h) (build_field sf) refl
          here (λ o k. value_back t o x k) fresh

  -- A struct whose values an item keeps and whose fields have different attribute names is marshalled,
  -- and unmarshalling the item into the zero value of the type gives the struct back.
  pub unmarshal-marshal :
      (fs : FieldTypes) (x : Fields fs)
      → AreKept F M fs x
      → (item : Item) × (marshal F M (struct_of fs) x ≡ ok item)
        × (unmarshal F M (pointer_to (struct_of fs)) item (some (zero_fields fs)) ≡ ok (some x))
  unfolding marshal unmarshal get_attr
  unmarshal-marshal fs x kept =
      let (m, written, read, rest) = fields_back fs x no_attrs kept (λ k h. refl) in
      (m, written, rw read refl)
