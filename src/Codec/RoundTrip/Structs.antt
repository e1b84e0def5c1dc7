-- ===== src/Codec/RoundTrip/Structs.antt =====
-- marshal.go, unmarshal.go: pointers, and the rounds of the loops over the fields of a struct.
use dynago.Prelude.{
  ◌≡◌, refl, sym, ap, ◌∙◌, Bool, true, false, ◌||◌, Bytes, Option, none, some, Result, ok, ◌>>=◌,
  ◌≟◌, ≟_iff, arith,
}
use dynago.Attribute.{AttributeValue, Item, type_null}
use dynago.Attribute.Items.{get_attr, set_attr}
use dynago.Codec.Kept.{IsKept, IsKeptField, has_name, is_pointer, is_custom}
use dynago.Codec.Marshal.{
  Methods, marshal_value, marshal_fields, marshal_nil, marshal_unless, set_field, is_omitted,
}
use dynago.Codec.Numbers.{Formats}
use dynago.Codec.Tags.{FieldOptions, StructField, build_field}
use dynago.Codec.Types.{
  GoType, FieldTypes, El, Fields, string_type, bool_type, time_type, int_type, uint_type,
  float32_type, float64_type, slice_of, pointer_to, defined_bytes, map_of, struct_of, custom_type,
  interface_type, other_type, field, zero_value, zero_fields,
}
use dynago.Codec.Unmarshal.{is_null, unmarshal_value, unmarshal_fields, in_field, pointee, followed}
use dynago.Codec.RoundTrip.Lists.{other_name, set_attr_there, get_attr-set_attr_other}

module _ (F : Formats) (M : Methods) where
  -- What Marshal writes for a value, and that Unmarshal reads it; only a nil pointer is written as NULL.
  abbrev pub ValueBack : (t : GoType) → FieldOptions → El t → Type 0
  ValueBack t o x =
      (av : AttributeValue) × (marshal_value F M t o x ≡ ok av)
      × (unmarshal_value F M t o av (zero_value t) ≡ ok x)
      × (is_pointer t ≡ false → is_null av ≡ false)

  -- What Marshal makes of an item for the fields of a struct, and that Unmarshal reads them.
  abbrev pub FieldsBack : (fs : FieldTypes) → Fields fs → Item → Type 0
  FieldsBack fs x acc =
      (m : Item) × (marshal_fields F M fs x acc ≡ ok m)
      × (unmarshal_fields F M fs m (zero_fields fs) ≡ ok x)
      × ((k : Bytes) → has_name k fs ≡ false → get_attr k m ≡ get_attr k acc)

  -- No field has its attribute yet.
  abbrev pub IsFresh : FieldTypes → Item → Type 0
  IsFresh fs acc = (k : Bytes) → has_name k fs ≡ true → get_attr k acc ≡ none

  followed_plain :
      (t : GoType) (av : AttributeValue) (x : El t) (r : Result (El t))
      → is_pointer t ≡ false
      → followed F M t av x r ≡ r
  unfolding followed is_pointer
  followed_plain string_type av x r h = refl
  followed_plain bool_type av x r h = refl
  followed_plain time_type av x r h = refl
  followed_plain (int_type w) av x r h = refl
  followed_plain (uint_type w) av x r h = refl
  followed_plain float32_type av x r h = refl
  followed_plain float64_type av x r h = refl
  followed_plain (slice_of t) av x r h = refl
  followed_plain defined_bytes av x r h = refl
  followed_plain (map_of k t) av x r h = refl
  followed_plain (struct_of fs) av x r h = refl
  followed_plain (custom_type c fs) av x r h = refl
  followed_plain interface_type av x r h = refl
  followed_plain other_type av x r h = refl
  followed_plain (pointer_to t) av x r h = cc

  pub nil_back :
      (t : GoType) (o : FieldOptions) → is_custom t ≡ false → ValueBack (pointer_to t) o none
  unfolding marshal_value unmarshal_value marshal_nil is_custom is_null is_pointer
  nil_back string_type o h = (type_null true, refl, refl, λ p. cc p)
  nil_back bool_type o h = (type_null true, refl, refl, λ p. cc p)
  nil_back time_type o h = (type_null true, refl, refl, λ p. cc p)
  nil_back (int_type w) o h = (type_null true, refl, refl, λ p. cc p)
  nil_back (uint_type w) o h = (type_null true, refl, refl, λ p. cc p)
  nil_back float32_type o h = (type_null true, refl, refl, λ p. cc p)
  nil_back float64_type o h = (type_null true, refl, refl, λ p. cc p)
  nil_back (slice_of t) o h = (type_null true, refl, refl, λ p. cc p)
  nil_back defined_bytes o h = (type_null true, refl, refl, λ p. cc p)
  nil_back (map_of k t) o h = (type_null true, refl, refl, λ p. cc p)
  nil_back (struct_of fs) o h = (type_null true, refl, refl, λ p. cc p)
  nil_back (custom_type c fs) o h = cc
  nil_back interface_type o h = (type_null true, refl, refl, λ p. cc p)
  nil_back other_type o h = (type_null true, refl, refl, λ p. cc p)
  nil_back (pointer_to t) o h = (type_null true, refl, refl, λ p. cc p)

  pub pointer_back :
      (t : GoType) (o : FieldOptions) (x : El t)
      → is_pointer t ≡ false
      → ValueBack t o x
      → ValueBack (pointer_to t) o (some x)
  unfolding marshal_value unmarshal_value pointee is_pointer
  pointer_back t o x h (av, written, read, shown) = (
    av,
    written,
    rw
        (
          shown h,
          followed_plain t av (zero_value t) (unmarshal_value F M t o av (zero_value t)) h,
          read,
        )
        refl,
    λ p. cc p,
  )

  module _ (sf : StructField) (t : GoType) (fs : FieldTypes) (x : El t) (xs : Fields fs)
      (acc : Item) (rest : (m : Item) → IsFresh fs m → FieldsBack fs xs m) where
    abbrev round : Option FieldOptions → Result Item
    round none = marshal_fields F M fs xs acc
    round (some o) = do
      av ← marshal_unless F M (is_omitted F M t o x) (marshal_value F M t o x)
      marshal_fields F M fs xs (set_field F M o.name av acc)

    -- The round of the loop for this field.
    first_round :
        (b : Option FieldOptions)
        → build_field sf ≡ b
        → marshal_fields F M (field sf t fs) (x, xs) acc ≡ round b
    unfolding marshal_value
    first_round b e = ap round e

    -- A field that the codec leaves out.
    unlisted_field :
        build_field sf ≡ none
        → x ≡ zero_value t
        → IsFresh (field sf t fs) acc
        → FieldsBack (field sf t fs) (x, xs) acc
    unfolding has_name marshal_value unmarshal_value
    unlisted_field e zero fresh =
        let name : (k : Bytes) → has_name k (field sf t fs) ≡ has_name k fs =
          λ k. rw (has_name, e) refl in
        let (m, written, read, other) = rest acc (λ k h. fresh k (name k ∙ h)) in
        (
          m,
          first_round none e ∙ written,
          rw (unmarshal_fields, e, read) (ap (λ y. ok (y, xs)) (sym zero)),
          λ k h. other k (sym (name k) ∙ h),
        )

    module _ (o : FieldOptions) (e : build_field sf ≡ some o) (new : has_name o.name fs ≡ false)
        (fresh : IsFresh (field sf t fs) acc) where
      name : (k : Bytes) → has_name k (field sf t fs) ≡ (o.name ≟ k || has_name k fs)
      unfolding has_name ◌≟◌
      name k = rw (has_name, e) refl

      later-IsFresh : IsFresh fs acc
      later-IsFresh k h = fresh k (name k ∙ ground (arith, h))

      absent : get_attr o.name acc ≡ none
      absent = fresh o.name (name o.name ∙ ground (arith, ≟_iff o.name o.name))

      apart :
          (k : Bytes)
          → has_name k (field sf t fs) ≡ false
          → ((o.name ≟ k) ≡ false) × (has_name k fs ≡ false)
      apart k h =
          let either : (o.name ≟ k || has_name k fs) ≡ false = sym (name k) ∙ h in
          (ground (arith, either), ground (arith, either))

      -- A field that is left out of the item.
      omitted_field :
          is_omitted F M t o x ≡ true → x ≡ zero_value t → FieldsBack (field sf t fs) (x, xs) acc
      unfolding marshal_unless set_field marshal_value unmarshal_value
      omitted_field left_out zero =
          let (m, written, read, other) = rest acc later-IsFresh in
          let missing : get_attr o.name m ≡ none = other o.name new ∙ absent in
          (
            m,
            first_round (some o) e ∙ rw left_out written,
            rw (unmarshal_fields, e, missing, read) (ap (λ y. ok (y, xs)) (sym zero)),
            λ k h. other k (apart k h).1,
          )

      carried_field :
          is_omitted F M t o x ≡ false → ValueBack t o x → FieldsBack (field sf t fs) (x, xs) acc
      unfolding marshal_unless set_field in_field marshal_value unmarshal_value
      carried_field carried (av, wrote, reads, shown) =
          let still : IsFresh fs (set_attr o.name av acc) = λ k h.
            get_attr-set_attr_other o.name k av acc (other_name (λ i. has_name i fs) o.name k new h)
            ∙ later-IsFresh k h in
          let (m, written, read, other) = rest (set_attr o.name av acc) still in
          let there : get_attr o.name m ≡ some av =
            other o.name new ∙ set_attr_there o.name av acc in
          (
            m,
            first_round (some o) e ∙ rw (carried, wrote) written,
            rw (unmarshal_fields, e, there, reads, read) refl,
            λ k h. other k (apart k h).1 ∙ get_attr-set_attr_other o.name k av acc (apart k h).0,
          )

    listed_field :
        (o : FieldOptions) (c : Bool)
        → build_field sf ≡ some o
        → has_name o.name fs ≡ false
        → is_omitted F M t o x ≡ c
        → elim c as (λ r. Type 0) [ true ↦ x ≡ zero_value t | false ↦ IsKept F M t o x ]
        → (IsKept F M t o x → ValueBack t o x)
        → IsFresh (field sf t fs) acc
        → FieldsBack (field sf t fs) (x, xs) acc
    listed_field o true e new left_out zero back fresh = omitted_field o e new fresh left_out zero
    listed_field o false e new carried kept back fresh =
        carried_field o e new fresh carried (back kept)

    pub any_field :
        (b : Option FieldOptions)
        → build_field sf ≡ b
        → IsKeptField F M t fs (λ o y. IsKept F M t o y) b x
        → ((o : FieldOptions) → IsKept F M t o x → ValueBack t o x)
        → IsFresh (field sf t fs) acc
        → FieldsBack (field sf t fs) (x, xs) acc
    any_field none e zero back fresh = unlisted_field e zero fresh
    any_field (some o) e (new, here) back fresh =
        listed_field o (is_omitted F M t o x) e new refl here (back o) fresh
