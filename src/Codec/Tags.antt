-- ===== src/Codec/Tags.antt =====
-- codec.go: the options of a struct tag.
use dynago.Prelude.{
  ℕ, Bool, true, false, not, ◌&&◌, ◌||◌, List, [], ◌∷◌, Bytes, bytes, Option, none, some, ◌≟◌, ◌==◌,
  has_prefix, skip, split_on, leb, if◌then◌else◌,
}

-- fieldOptions
pub record FieldOptions : Type 0 where
  pub name : Bytes
  pub skipped : Bool
  pub omit_empty : Bool
  pub hash : Bool
  pub range : Bool
  pub gsi : Bytes
  pub as_set : Bool
  pub unix_time : Bool

-- fieldOptions{}
abbrev pub no_options : FieldOptions
no_options = record {
  name = [];
  skipped = false;
  omit_empty = false;
  hash = false;
  range = false;
  gsi = [];
  as_set = false;
  unix_time = false;
}

-- What the program reads of a reflect.StructField: its name, whether it is exported, and the text
-- of its tag under "dynamo".
pub record StructField : Type 0 where
  pub field_name : Bytes
  pub exported : Bool
  pub tag : Bytes

is_white : ℕ → Bool
is_white c = c == 32 || leb 9 c && leb c 13

trim_before : Bytes → Bytes
trim_before [] = []
trim_before (c ∷ s) = let rest = trim_before s in if is_white c then rest else c ∷ s

trim_after : Bytes → Bytes
trim_after [] = []
trim_after (c ∷ s) = elim (trim_after s) [
  | [] ↦ if is_white c then [] else c ∷ []
  | d ∷ rest ↦ c ∷ d ∷ rest
]

-- strings.TrimSpace, of ASCII text
trim : Bytes → Bytes
unfolding is_white trim_before trim_after
trim s = trim_after (trim_before s)

-- isKnownOption
is_known_option : Bytes → Bool
unfolding ◌≟◌ has_prefix
is_known_option s =
    s ≟ bytes "hash"
    || s ≟ bytes "range"
    || s ≟ bytes "omitempty"
    || s ≟ bytes "set"
    || s ≟ bytes "unixtime"
    || has_prefix s (bytes "gsi:")

-- The switch of parseTag. `first` is i == 0.
apply_part : Bool → Bytes → FieldOptions → FieldOptions
unfolding is_known_option
apply_part first part o =
    if first && not (part ≟ []) && not (is_known_option part)
    then (record o { name = part })
    else if part ≟ bytes "hash"
    then (record o { hash = true })
    else if part ≟ bytes "range"
    then (record o { range = true })
    else if has_prefix part (bytes "gsi:")
    then (record o { gsi = skip 4 part })
    else if part ≟ bytes "omitempty"
    then (record o { omit_empty = true })
    else if part ≟ bytes "set"
    then (record o { as_set = true })
    else if part ≟ bytes "unixtime"
    then (record o { unix_time = true })
    else o

apply_parts : Bool → List Bytes → FieldOptions → FieldOptions
unfolding apply_part trim
apply_parts first [] o = o
apply_parts first (part ∷ parts) o = apply_parts false parts (apply_part first (trim part) o)

-- parseTag
unfoldable pub parse_tag : StructField → FieldOptions
unfolding apply_parts split_on
parse_tag sf =
    let o = apply_parts true (split_on b',' (sf.tag)) no_options in
    if sf.tag ≟ []
    then (record no_options { name = sf.field_name })
    else if sf.tag ≟ bytes "-"
    then (record no_options { skipped = true })
    else if o.name ≟ []
    then (record o { name = sf.field_name })
    else o

-- buildCodec, of one field: its options, or none where the codec leaves the field out.
unfoldable pub build_field : StructField → Option FieldOptions
unfolding parse_tag
build_field sf = let o = parse_tag sf in if not (sf.exported) || o.skipped then none else some o
