-- ===== src/Tests/Codec.antt =====
-- codec.go, marshal.go, unmarshal.go on one struct type.
use dynago.Prelude.{
  ◌≡◌, refl, true, false, [], ◌∷◌, Bytes, bytes, none, some, ok, err, validation, expression, ◌>>=◌,
}
use dynago.Attribute.{Item, attr, no_attrs, type_n, type_s, type_ns, type_null}
use dynago.Attribute.Items.{get_attr}
use dynago.Expr.Floats.{format_int}
use dynago.Client.Values.{pos, negsuc}
use dynago.Codec.Kept.{AreKept, has_name, is_pointer, has_key}
use dynago.Codec.Marshal.{Methods, is_omitted, marshal, marshal_value}
use dynago.Codec.Numbers.{Formats, set_uint, parse_uint, parse_int, set_int, fits_int, fits_uint}
use dynago.Codec.RoundTrip.{unmarshal-marshal}
use dynago.Codec.Tags.{StructField, no_options, parse_tag, build_field}
use dynago.Codec.Types.{
  bits, w8, w16, string_key, FieldTypes, Fields, string_type, bool_type, time_type, int_type,
  uint_type, slice_of, pointer_to, map_of, defined_bytes, struct_of, no_fields, field, zero_fields,
  zero_time,
}
use dynago.Codec.Read.{AreRead}
use dynago.Codec.Read.Sound.{unmarshal-AreRead}
use dynago.Codec.Unmarshal.{unmarshal, unmarshal_value, unmarshal_set}

-- Whole numbers in place of floats, and the seconds of a time.
abbrev whole_formats : Formats
whole_formats = record {
  format64 = format_int;
  format32 = format_int;
  parse_float = parse_uint;
  exceeds32 = λ f. false;
  narrow = λ f. f;
  float_is_zero = λ f. false;
  format_time = λ t. [];
  parse_nano = λ s. none;
  parse_seconds = λ s. none;
}

abbrev no_methods : Methods
no_methods = record {
  marshal_dynamo = λ c fs x. err validation;
  unmarshal_dynamo = λ c fs av x. err validation;
}

abbrev tagged : Bytes → Bytes → StructField
tagged name text = record { field_name = name; exported = true; tag = text }

abbrev point_type : FieldTypes
point_type =
    field (tagged (bytes "X") []) (int_type w8)
      (field (tagged (bytes "Y") (bytes "y,omitempty")) (int_type w8) no_fields)

abbrev user_type : FieldTypes
user_type = field (tagged (bytes "ID") (bytes "id,hash")) string_type (
    field (tagged (bytes "Age") (bytes "omitempty")) (pointer_to (uint_type w8)) (
      field (tagged (bytes "Marks") (bytes "marks,set")) (slice_of (int_type w16)) (
        field (tagged (bytes "Seen") (bytes "seen,unixtime")) time_type (
          field (tagged (bytes "Cache") (bytes "-")) bool_type (
            field (tagged (bytes "Home") (bytes " home ")) (struct_of point_type) (
              field (tagged (bytes "Scores") []) (map_of string_key (slice_of (uint_type w8)))
                no_fields))))))

abbrev user : Fields user_type
user = (
  bytes "u1",
  (
    some 7,
    (
      some (pos 300 ∷ negsuc 4 ∷ []),
      (
        record { seconds = pos 12; nanos = 0 },
        (false, ((pos 3, (pos 0, tt)), (some ((bytes "a", some (1 ∷ 2 ∷ [])) ∷ []), tt))),
      ),
    ),
  ),
)

user-AreKept : AreKept whole_formats no_methods user_type user
unfolding build_field has_name is_omitted fits_int fits_uint is_pointer bits has_key
user-AreKept = (
  (refl, tt),
  (
    (refl, (refl, refl)),
    (
      (refl, (refl, (refl, tt))),
      (
        (refl, (refl, refl)),
        (refl, ((refl, ((refl, refl), ((refl, refl), tt))), ((refl, (refl, tt, tt)), tt))),
      ),
    ),
  ),
)

unmarshal-marshal_example :
    (item : Item) × (marshal whole_formats no_methods (struct_of user_type) user ≡ ok item)
    × (unmarshal whole_formats no_methods
          (pointer_to (struct_of user_type))
          item
          (some (zero_fields user_type))
        ≡ ok (some user))
unmarshal-marshal_example = unmarshal-marshal whole_formats no_methods user_type user user-AreKept

-- The elements of a number set are not checked against the width of the slice's elements.
set_wraps :
    unmarshal_set whole_formats no_methods (int_type w8) (type_ns (bytes "300" ∷ []))
    ≡ ok (pos 44 ∷ [])
unfolding unmarshal_set parse_int set_int bits
set_wraps = refl

-- A nil slice is written as NULL, which does not read as a slice.
nil_slice :
    marshal_value whole_formats no_methods (slice_of string_type) no_options none
    ≡ ok (type_null true)
unfolding marshal_value
nil_slice = refl

nil_slice_back :
    unmarshal_value whole_formats no_methods (slice_of string_type) no_options (type_null true) none
    ≡ err expression
unfolding unmarshal_value
nil_slice_back = refl

-- A defined type of bytes is written as a list and read as binary.
defined_bytes_back :
    (marshal_value whole_formats no_methods defined_bytes no_options (some (7 ∷ [])) >>= λ av.
    unmarshal_value whole_formats no_methods defined_bytes no_options av none)
    ≡ err expression
unfolding marshal_value unmarshal_value
defined_bytes_back = refl

tag_options :
    parse_tag (tagged (bytes "Zip") (bytes "gsi:by_zip, omitempty"))
    ≡ record no_options { name = bytes "Zip"; gsi = bytes "by_zip"; omit_empty = true }
unfolding parse_tag
tag_options = refl

-- An attribute of every field of the struct.
abbrev user_item : Item
user_item = attr (bytes "id") (type_s (bytes "u2")) (
    attr (bytes "Age") (type_n (bytes "255"))
      (attr (bytes "marks") (type_ns (bytes "-40000" ∷ [])) no_attrs))

abbrev read_user : Fields user_type
read_user = (
  bytes "u2",
  (some 255, (some (pos 25536 ∷ []), (zero_time, (false, ((pos 0, (pos 0, tt)), (none, tt)))))),
)

reads_user :
    unmarshal whole_formats no_methods
      (pointer_to (struct_of user_type))
      user_item
      (some (zero_fields user_type))
    ≡ ok (some read_user)
unfolding unmarshal get_attr build_field parse_int parse_uint set_int set_uint fits_int fits_uint
    bits
reads_user = refl

unmarshal-AreRead_example :
    AreRead whole_formats user_type user_item (zero_fields user_type) read_user
unmarshal-AreRead_example =
    unmarshal-AreRead whole_formats no_methods user_type user_item (zero_fields user_type) read_user
      reads_user
