-- ===== src/Memdb/KeyCondition/Parse.antt =====
-- memdb/memdb.go: parseKeyCondition and the parsers of its parts.
use dynago.Prelude.{
  ℕ, Bool, true, false, ◌&&◌, ◌||◌, List, [], ◌∷◌, Bytes, bytes, Option, none, some, Assoc, lookup,
  ◌==◌, ◌≟◌, has_prefix, cut, to_lower, if◌then◌else◌, Result, ok, err, validation, ◌>>=◌,
}
use dynago.Attribute.{AttributeValue, Item}
use dynago.Attribute.Items.{get_attr}
use dynago.Memdb.Schema.{KeyDef}
use dynago.Memdb.Parsing.{Placeholders}
use dynago.Memdb.KeyCondition.Pieces.{
  trim_space, cut_upper, before_last, contains_between, split_on_and,
}

-- The strings that sortKeyCondition.op takes; `ne` is "<>", which matches nothing.
pub data SortOp : Type 0 where
  eq ne lt le gt ge begins_with between : SortOp

-- sortKeyCondition; `value2` is the high bound of BETWEEN
pub record SortKeyCondition : Type 0 where
  pub op : SortOp
  pub value : AttributeValue
  pub value2 : AttributeValue
  pub attr : Bytes

unfoldable pub starts_with : ℕ → Bytes → Bool
starts_with c [] = false
starts_with c (b ∷ tok) = b == c

unfoldable pub or_token : Bytes → Option Bytes → Bytes
or_token tok none = tok
or_token tok (some resolved) = resolved

-- resolveNamePlaceholder
unfoldable pub resolve_name_placeholder : Bytes → Assoc Bytes → Bytes
unfolding starts_with or_token
resolve_name_placeholder tok names =
    if starts_with b'#' tok then or_token tok (lookup tok names) else tok

or_validation {ℓ} : {A : Type ℓ} → Option A → Result A
or_validation none = err validation
or_validation (some a) = ok a

-- resolveValuePlaceholder
unfoldable pub resolve_value_placeholder : Bytes → Item → Result AttributeValue
unfolding starts_with or_validation
resolve_value_placeholder tok values =
    if starts_with b':' tok then or_validation (get_attr tok values) else err validation

module _ (p : Placeholders) where
  -- parseBeginsWith
  parse_begins_with : Bytes → Result SortKeyCondition
  unfolding or_validation resolve_name_placeholder resolve_value_placeholder
  parse_begins_with part = do
    (_, after) ← or_validation (cut (bytes "(") part)
    inner ← or_validation (before_last b')' after)
    (attr_tok, val_tok) ← or_validation (cut (bytes ",") inner)
    val ← resolve_value_placeholder (trim_space val_tok) p.values
    ok (record {
      op = SortOp.begins_with;
      value = val;
      value2 = AttributeValue.type_none;
      attr = resolve_name_placeholder (trim_space attr_tok) p.names;
    })

  -- parseBetween
  parse_between : Bytes → Result SortKeyCondition
  unfolding or_validation resolve_name_placeholder resolve_value_placeholder
  parse_between part = do
    (attr_tok, bounds) ← or_validation (cut_upper (bytes " BETWEEN ") part)
    (lo_tok, hi_tok) ← or_validation (cut_upper (bytes " AND ") bounds)
    lo ← resolve_value_placeholder (trim_space lo_tok) p.values
    hi ← resolve_value_placeholder (trim_space hi_tok) p.values
    ok (record {
      op = SortOp.between;
      value = lo;
      value2 = hi;
      attr = resolve_name_placeholder (trim_space attr_tok) p.names;
    })

  -- The loop of parseSimpleComparison: the first operator of the list that the part holds.
  compare_by : Bytes → List (Bytes × SortOp) → Result (Bytes × SortOp × AttributeValue)
  unfolding resolve_name_placeholder resolve_value_placeholder
  compare_by part [] = err validation
  compare_by part ((symbol, op) ∷ ops) = elim (cut symbol part) [
    | none ↦ compare_by part ops
    | some (attr_tok, val_tok) ↦ do
      val ← resolve_value_placeholder (trim_space val_tok) p.values
      ok (resolve_name_placeholder (trim_space attr_tok) p.names, op, val)
  ]

  abbrev operators : List (Bytes × SortOp)
  operators =
      (bytes "<=", SortOp.le)
      ∷ (bytes ">=", SortOp.ge)
      ∷ (bytes "<>", SortOp.ne)
      ∷ (bytes "=", SortOp.eq)
      ∷ (bytes "<", SortOp.lt)
      ∷ (bytes ">", SortOp.gt)
      ∷ []

  -- parseSimpleComparison
  parse_simple_comparison : Bytes → Result (Bytes × SortOp × AttributeValue)
  unfolding compare_by
  parse_simple_comparison part = compare_by part operators

-- The variables pkValue (with pkFound) and skCond of the loop over the parts.
pub record Parts : Type 0 where
  pub pk_value : Option AttributeValue
  pub sk_cond : Option SortKeyCondition

is_eq : SortOp → Bool
is_eq SortOp.eq = true
is_eq _ = false

is_range : Option KeyDef → Bytes → Bool
is_range none attr = false
is_range (some def) attr = attr ≟ def.name

-- Where a comparison of a part goes.
place : Bytes → Option KeyDef → Parts → Bytes × SortOp × AttributeValue → Result Parts
unfolding is_eq is_range
place pk_name range_def acc (attr, op, val) =
    if (attr ≟ pk_name) && is_eq op
    then ok (record acc { pk_value = some val })
    else if is_range range_def attr
    then ok (record acc {
      sk_cond =
          some (record { op = op; value = val; value2 = AttributeValue.type_none; attr = attr });
    })
    else err validation

-- One round of the loop.
parse_part : Placeholders → Bytes → Option KeyDef → Parts → Bytes → Result Parts
unfolding parse_begins_with parse_between parse_simple_comparison place
parse_part p pk_name range_def acc raw =
    let part = trim_space raw in
    let lower = to_lower part in
    if has_prefix lower (bytes "begins_with(") || has_prefix lower (bytes "begins_with (")
    then (do sc ← parse_begins_with p part; ok (record acc { sk_cond = some sc }))
    else if contains_between part
    then (do sc ← parse_between p part; ok (record acc { sk_cond = some sc }))
    else (do found ← parse_simple_comparison p part; place pk_name range_def acc found)

parse_parts : Placeholders → Bytes → Option KeyDef → Parts → List Bytes → Result Parts
unfolding parse_part
parse_parts p pk_name range_def acc [] = ok acc
parse_parts p pk_name range_def acc (part ∷ parts) = do
  next ← parse_part p pk_name range_def acc part
  parse_parts p pk_name range_def next parts

-- parseKeyCondition: the partition key's value and the condition on the sort key. splitOnAND gives
-- one part or two, so the test of their number never fails.
unfoldable pub parse_key_condition :
    Bytes → Placeholders → Bytes → Option KeyDef → Result (AttributeValue × Option SortKeyCondition)
unfolding parse_parts or_validation
parse_key_condition text p pk_name range_def = do
  acc ←
      parse_parts p pk_name range_def (record { pk_value = none; sk_cond = none })
        (split_on_and text)
  pk_value ← or_validation acc.pk_value
  ok (pk_value, acc.sk_cond)
