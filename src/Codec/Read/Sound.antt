-- ===== src/Codec/Read/Sound.antt =====
-- unmarshal.go: Unmarshal reads what stands in the item.
use dynago.Prelude.{
  ℕ, ◌≡◌, refl, sym, ap, ◌∙◌, Bool, true, false, List, [], Bytes, Option, none, some, Result, ok,
  err, expression, validation, condition_failed, tx_cancelled, not_found, cancelled, unprocessed,
  panic, out_of_fuel, >>=-eq-ok, ◌>>=◌, if◌then◌else◌, Bool-cases, Option-cases, inl, inr, if_no,
  ◌⊎◌, arith,
}
use mathlib.Core.Path.{subst}
use dynago.Attribute.{
  AttributeValue, Item, type_none, type_s, type_n, type_b, type_bool, type_null, type_l, type_m,
  type_ss, type_ns, type_bs,
}
use dynago.Attribute.Items.{get_attr}
use dynago.Client.Values.{ℤ}
use dynago.Codec.Marshal.{Methods}
use dynago.Codec.Numbers.{Formats, parse_int, parse_uint, fits_int, fits_uint, set_int, set_uint}
use dynago.Codec.Numbers.Digits.{set_int_fits, set_uint_fits}
use dynago.Codec.Read.{
  Sliced, Mapped, is_pointer, Pointed, before, named_attribute, FieldRead, IsRead, AreRead,
}
use dynago.Codec.Read.Lists.{unmarshal_list-Listed, unmarshal_map-Mapped}
use dynago.Codec.Tags.{FieldOptions, no_options, build_field}
use dynago.Codec.Types.{
  Width, GoType, FieldTypes, El, Fields, string_type, bool_type, time_type, int_type, uint_type,
  float32_type, float64_type, slice_of, pointer_to, defined_bytes, map_of, struct_of, custom_type,
  interface_type, other_type, no_fields, field, zero_value,
}
use dynago.Codec.Unmarshal.{
  required, text_of, number_of, truth_of, binary_of, list_of, item_value_of, is_null, read_int,
  read_uint, of_bytes, unmarshal_set, unmarshal_list, unmarshal_slice, unmarshal_map, in_field,
  pointee, followed, unmarshal_value, unmarshal_fields, unmarshal,
}

number_of-ok : (av : AttributeValue) (s : Bytes) → number_of av ≡ ok s → av ≡ type_n s
unfolding number_of
number_of-ok av s e = ground (arith, e)

text_of-ok : (av : AttributeValue) (s : Bytes) → text_of av ≡ ok s → av ≡ type_s s
unfolding text_of
text_of-ok av s e = ground (arith, e)

truth_of-ok : (av : AttributeValue) (b : Bool) → truth_of av ≡ ok b → av ≡ type_bool b
unfolding truth_of
truth_of-ok av b e = ground (arith, e)

item_value_of-ok : (av : AttributeValue) (m : Item) → item_value_of av ≡ ok m → av ≡ type_m m
unfolding item_value_of
item_value_of-ok av m e = ground (arith, e)

is_null-true : (av : AttributeValue) → is_null av ≡ true → av ≡ type_null true
unfolding is_null
is_null-true av e = ground (arith, e)

required-ok : {A : Type 0} (o : Option A) (x : A) → required o ≡ ok x → o ≡ some x
unfolding required
required-ok none x e = cc e
required-ok (some y) x e = let same : y ≡ x = cc e in ap some same

read_int-ok : (w : Width) (s : Bytes) (n : ℤ) → read_int w s ≡ ok n → parse_int s ≡ some n
unfolding read_int
read_int-ok w s n e =
    let (m, parsed, more) =
      >>=-eq-ok (required (parse_int s))
        (λ m. if fits_int w m then ok (set_int w m) else err expression) e in
    elim (Bool-cases (fits_int w m)) [
      | inl fits ↦
          let stored : set_int w m ≡ n = ground (arith, more, fits) in
          required-ok (parse_int s) m parsed ∙ ap some (sym (set_int_fits w m fits) ∙ stored)
      | inr exceeds ↦ absurd (ground (arith, more, exceeds))
    ]

read_uint-ok : (w : Width) (s : Bytes) (n : ℕ) → read_uint w s ≡ ok n → parse_uint s ≡ some n
unfolding read_uint
read_uint-ok w s n e =
    let (m, parsed, more) =
      >>=-eq-ok (required (parse_uint s))
        (λ m. if fits_uint w m then ok (set_uint w m) else err expression) e in
    elim (Bool-cases (fits_uint w m)) [
      | inl fits ↦
          let stored : set_uint w m ≡ n = ground (arith, more, fits) in
          required-ok (parse_uint s) m parsed ∙ ap some (sym (set_uint_fits w m fits) ∙ stored)
      | inr exceeds ↦ absurd (ground (arith, more, exceeds))
    ]

in_field-ok : {A : Type 0} (r : Result A) (x : A) → in_field r ≡ ok x → r ≡ ok x
unfolding in_field
in_field-ok (ok y) x e = e
in_field-ok (err validation) x e = cc e
in_field-ok (err condition_failed) x e = cc e
in_field-ok (err expression) x e = cc e
in_field-ok (err (tx_cancelled rs)) x e = cc e
in_field-ok (err not_found) x e = cc e
in_field-ok (err cancelled) x e = cc e
in_field-ok (err (unprocessed n)) x e = cc e
in_field-ok (err panic) x e = cc e
in_field-ok (err out_of_fuel) x e = cc e

module _ {A : Type 0} (b : Bool) (r : Result A) where
  -- What a pointer that is read points to, or NULL.
  pointer_result :
      (x : Option A)
      → (if b then ok none else (r >>= λ y. ok (some y))) ≡ ok x
      → ((b ≡ true) × (x ≡ none)) ⊎ ((y : A) × ((r ≡ ok y) × (some y ≡ x)))
  pointer_result x e = elim (Bool-cases b) [
    | inl null ↦ inl (null, ground (arith, e, null))
    | inr other ↦
        let unread : (r >>= λ y. ok (some y)) ≡ ok x =
          sym (if_no b (ok none) (r >>= λ y. ok (some y)) other) ∙ e in
        let (y, read, whole) = >>=-eq-ok r (λ y. ok (some y)) unread in
        let same : some y ≡ x = cc whole in inr (y, (read, same))
  ]

module _ (F : Formats) (M : Methods) where
  -- Only a second pointer is not followed.
  followed-first :
      (t : GoType) (av : AttributeValue) (old x : El t) (r : Result (El t))
      → is_pointer t ≡ false
      → followed F M t av old r ≡ ok x
      → r ≡ ok x
  unfolding followed is_pointer
  followed-first (pointer_to t) av old x r h e = cc h
  followed-first string_type av old x r h e = e
  followed-first bool_type av old x r h e = e
  followed-first time_type av old x r h e = e
  followed-first (int_type w) av old x r h e = e
  followed-first (uint_type w) av old x r h e = e
  followed-first float32_type av old x r h e = e
  followed-first float64_type av old x r h e = e
  followed-first (slice_of t) av old x r h e = e
  followed-first defined_bytes av old x r h e = e
  followed-first (map_of k t) av old x r h e = e
  followed-first (struct_of fs) av old x r h e = e
  followed-first (custom_type c fs) av old x r h e = e
  followed-first interface_type av old x r h e = e
  followed-first other_type av old x r h e = e

  pointee-before : (t : GoType) (p : Option (El t)) → pointee t p ≡ before t p
  unfolding pointee
  pointee-before t none = refl
  pointee-before t (some x) = refl

  pointed :
      (t : GoType) (av : AttributeValue) (old y : El t) (r : Result (El t)) (twice : Bool)
      → is_pointer t ≡ twice
      → followed F M t av old r ≡ ok y
      → (r ≡ ok y → IsRead F t old av y)
      → Pointed twice (IsRead F t old av) av (some y)
  pointed t av old y r true h e read = tt
  pointed t av old y r false h e read = read (followed-first t av old y r h e)

  -- A list of values is read as one, whatever the options are.
  unmarshal_slice-Sliced :
      (t : GoType) (R : AttributeValue → El t → Type 0) (f : AttributeValue → Result (El t))
      (o : FieldOptions) (av : AttributeValue) (x : Option (List (El t)))
      → ((v : AttributeValue) (y : El t) → f v ≡ ok y → R v y)
      → unmarshal_slice F M t f o av ≡ ok x
      → Sliced R av x
  unfolding unmarshal_slice
  unmarshal_slice-Sliced t R f o (type_l vs) x read e = elim (Option-cases (of_bytes t [])) [
    | inr (b, bytes_only) ↦ absurd (unfold binary_of in ground (arith, e, bytes_only))
    | inl other ↦ elim (Bool-cases o.as_set) [
      | inl set ↦ absurd (unfold unmarshal_set in ground (arith, e, other, set))
      | inr list ↦
          let plain : (unmarshal_list f vs >>= λ xs. ok (some xs)) ≡ ok x =
            unfold list_of in ground (arith, e, other, list) in
          let (xs, all_read, whole) = >>=-eq-ok (unmarshal_list f vs) (λ xs. ok (some xs)) plain in
          let same : some xs ≡ x = cc whole in
          subst (Sliced R (type_l vs)) same (unmarshal_list-Listed R f read vs xs all_read)
    ]
  ]
  unmarshal_slice-Sliced t R f o type_none x read e = tt
  unmarshal_slice-Sliced t R f o (type_s s) x read e = tt
  unmarshal_slice-Sliced t R f o (type_n s) x read e = tt
  unmarshal_slice-Sliced t R f o (type_b s) x read e = tt
  unmarshal_slice-Sliced t R f o (type_bool b) x read e = tt
  unmarshal_slice-Sliced t R f o (type_null b) x read e = tt
  unmarshal_slice-Sliced t R f o (type_m m) x read e = tt
  unmarshal_slice-Sliced t R f o (type_ss ss) x read e = tt
  unmarshal_slice-Sliced t R f o (type_ns ss) x read e = tt
  unmarshal_slice-Sliced t R f o (type_bs ss) x read e = tt

  module _ (t : GoType) (old : El t) where
    -- What a field gets, from the attribute of its name.
    abbrev from_attribute : FieldOptions → Option AttributeValue → Result (El t)
    from_attribute o none = ok old
    from_attribute o (some av) = in_field (unmarshal_value F M t o av old)

    -- What a field gets, from its options.
    abbrev from_options : Item → Option FieldOptions → Result (El t)
    from_options item none = ok old
    from_options item (some o) = from_attribute o (get_attr o.name item)

    from_attribute-FieldRead :
        (o : FieldOptions) (found : Option AttributeValue) (x : El t)
        → ((av : AttributeValue) → unmarshal_value F M t o av old ≡ ok x → IsRead F t old av x)
        → from_attribute o found ≡ ok x
        → FieldRead (IsRead F t old) found old x
    from_attribute-FieldRead o none x read e = let same : old ≡ x = cc e in sym same
    from_attribute-FieldRead o (some av) x read e =
        read av (in_field-ok (unmarshal_value F M t o av old) x e)

    from_options-FieldRead :
        (item : Item) (b : Option FieldOptions) (x : El t)
        → ((o : FieldOptions) (av : AttributeValue)
            → unmarshal_value F M t o av old ≡ ok x
            → IsRead F t old av x)
        → from_options item b ≡ ok x
        → FieldRead (IsRead F t old) (named_attribute b item) old x
    unfolding named_attribute
    from_options-FieldRead item none x read e = let same : old ≡ x = cc e in sym same
    from_options-FieldRead item (some o) x read e =
        from_attribute-FieldRead o (get_attr o.name item) x (read o) e

  mutual
    unfolding unmarshal_value named_attribute

    value-IsRead :
        (t : GoType) (o : FieldOptions) (av : AttributeValue) (old x : El t)
        → unmarshal_value F M t o av old ≡ ok x
        → IsRead F t old av x
    value-IsRead (pointer_to t) o av old x e =
        let r = unmarshal_value F M t o av (pointee t old) in
        elim (pointer_result (is_null av) (followed F M t av (pointee t old) r) x e) [
          | inl (null, gone) ↦
              subst (Pointed (is_pointer t) (IsRead F t (before t old) av) av) (sym gone)
                (is_null-true av null)
          | inr (y, (read, whole)) ↦
              subst (Pointed (is_pointer t) (IsRead F t (before t old) av) av) whole (
                subst (λ p. Pointed (is_pointer t) (IsRead F t p av) av (some y))
                  (pointee-before t old)
                  (pointed t av (pointee t old) y r (is_pointer t) refl read
                    (λ whole_read. value-IsRead t o av (pointee t old) y whole_read)))
        ]
    value-IsRead string_type o av old x e = text_of-ok av x e
    value-IsRead bool_type o av old x e = truth_of-ok av x e
    value-IsRead (int_type w) o av old x e =
        let (s, read, more) = >>=-eq-ok (number_of av) (λ s. read_int w s) e in
        (s, (number_of-ok av s read, read_int-ok w s x more))
    value-IsRead (uint_type w) o av old x e =
        let (s, read, more) = >>=-eq-ok (number_of av) (λ s. read_uint w s) e in
        (s, (number_of-ok av s read, read_uint-ok w s x more))
    value-IsRead float64_type o av old x e =
        let (s, read, more) = >>=-eq-ok (number_of av) (λ s. required (F.parse_float s)) e in
        (s, (number_of-ok av s read, required-ok (F.parse_float s) x more))
    value-IsRead (slice_of t) o av old xs e =
        unmarshal_slice-Sliced t (IsRead F t (zero_value t))
          (λ v. unmarshal_value F M t no_options v (zero_value t)) o av xs
          (λ v y read. value-IsRead t no_options v (zero_value t) y read) e
    value-IsRead (map_of k t) o av old xs e =
        let read_value =
          λ (v : AttributeValue). unmarshal_value F M t no_options v (zero_value t) in
        let (m, read, more) = >>=-eq-ok (item_value_of av) (λ m. unmarshal_map k read_value m) e in
        subst (λ a. Mapped (IsRead F t (zero_value t)) a xs) (sym (item_value_of-ok av m read))
          (unmarshal_map-Mapped (IsRead F t (zero_value t)) read_value
            (λ v y r. value-IsRead t no_options v (zero_value t) y r) k m xs more)
    value-IsRead (struct_of fs) o av old x e =
        let (m, read, more) = >>=-eq-ok (item_value_of av) (λ m. unmarshal_fields F M fs m old) e in
        (m, (item_value_of-ok av m read, fields-AreRead fs m old x more))
    value-IsRead float32_type o av old x e = tt
    value-IsRead time_type o av old x e = tt
    value-IsRead (custom_type c fs) o av old x e = tt
    value-IsRead defined_bytes o av old x e = tt
    value-IsRead interface_type o av old x e = cc e
    value-IsRead other_type o av old x e = cc e

    fields-AreRead :
        (fs : FieldTypes) (item : Item) (old x : Fields fs)
        → unmarshal_fields F M fs item old ≡ ok x
        → AreRead F fs item old x
    fields-AreRead no_fields item old x e = tt
    fields-AreRead (field sf t fs) item (old, olds) (x, xs) e =
        let (y, first, more) =
          >>=-eq-ok (from_options t old item (build_field sf))
            (λ y. unmarshal_fields F M fs item olds >>= λ ys. ok (y, ys)) e in
        let (ys, rest, whole) =
          >>=-eq-ok (unmarshal_fields F M fs item olds) (λ ys. ok (y, ys)) more in
        let same : y ≡ x = cc whole in
        let others : ys ≡ xs = cc whole in
        (
          from_options-FieldRead t old item (build_field sf) x
              (λ o av read. value-IsRead t o av old x read) (first ∙ ap ok same),
          fields-AreRead fs item olds xs (rest ∙ ap ok others),
        )

  -- What Unmarshal leaves in a struct when it succeeds is what the item says, through nested structs,
  -- pointers, maps and lists: a field without an attribute is as before, an integer is exactly the
  -- number of the attribute's text, a string, a bool and a float64 are the attribute's, a nil pointer
  -- is a NULL, and a slice of a list and a map have an element for each element, in order.
  pub unmarshal-AreRead :
      (fs : FieldTypes) (item : Item) (old x : Fields fs)
      → unmarshal F M (pointer_to (struct_of fs)) item (some old) ≡ ok (some x)
      → AreRead F fs item old x
  unfolding unmarshal
  unmarshal-AreRead fs item old x e =
      let (y, read, whole) = >>=-eq-ok (unmarshal_fields F M fs item old) (λ y. ok (some y)) e in
      let same : y ≡ x = cc whole in fields-AreRead fs item old x (read ∙ ap ok same)
