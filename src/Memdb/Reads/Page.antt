-- ===== src/Memdb/Reads/Page.antt =====
-- memdb/memdb.go: what Query and Scan share behind the choice of candidates: the limit, the filter,
-- the projection and the key of the next page.
use dynago.Prelude.{
  ℕ, Bool, true, ◌&&◌, List, [], ◌∷◌, Bytes, Option, none, some, ltb, length, take, if◌then◌else◌,
  Result, ok, ◌>>=◌,
}
use dynago.Attribute.{AttributeValue, Item, no_attrs, deep_copy_item, deep_copy_av}
use dynago.Attribute.Items.{get_attr, set_attr}
use dynago.Backend.{PageResponse}
use dynago.Expr.Floats.{FloatOps}
use dynago.Memdb.Schema.{KeyDef}
use dynago.Memdb.Parsing.{Placeholders}
use dynago.Memdb.Conditions.{eval_condition}
use dynago.Memdb.Reads.Project.{project_item}

copy_attr : Bytes → Option AttributeValue → Item → Item
copy_attr name none key = key
copy_attr name (some v) key = set_attr name (deep_copy_av v) key

-- buildLastEvaluatedKey
unfoldable pub build_last_evaluated_key : Item → KeyDef → Option KeyDef → Item
unfolding copy_attr
build_last_evaluated_key item hash_def none =
    copy_attr hash_def.name (get_attr hash_def.name item) no_attrs
build_last_evaluated_key item hash_def (some range_def) =
    copy_attr range_def.name (get_attr range_def.name item)
      (copy_attr hash_def.name (get_attr hash_def.name item) no_attrs)

-- candidates[len(candidates)-1]
unfoldable pub last_of : List Item → Option Item
last_of [] = none
last_of (x ∷ []) = some x
last_of (x ∷ y ∷ xs) = last_of (y ∷ xs)

-- The loop over the candidates; a failing filter ends it with its error.
unfoldable pub collect : FloatOps → Bytes → Bytes → Placeholders → List Item → Result (List Item)
collect F filter projection p [] = ok []
collect F filter projection p (c ∷ candidates) =
    let rest = collect F filter projection p candidates in
    do
      matched ← eval_condition F filter p c
      items ← rest
      ok (if matched then project_item (deep_copy_item c) projection p.names ∷ items else items)

-- LastEvaluatedKey; the key is nil if there is no more.
unfoldable pub next_key : Bool → Option Item → KeyDef → Option KeyDef → Item
unfolding build_last_evaluated_key
next_key true (some item) hash_def range_def = build_last_evaluated_key item hash_def range_def
next_key _ _ hash_def range_def = no_attrs

-- hasMore
abbrev pub has_more : ℕ → List Item → Bool
has_more limit candidates = ltb 0 limit && ltb limit (length candidates)

-- The candidates within the limit.
abbrev pub within : ℕ → List Item → List Item
within limit candidates = if has_more limit candidates then take limit candidates else candidates

-- From the candidates to the response.
unfoldable pub page :
    FloatOps
    → Bytes
    → Bytes
    → Placeholders
    → ℕ
    → KeyDef
    → Option KeyDef
    → List Item
    → Result PageResponse
unfolding collect next_key last_of
page F filter projection p limit hash_def range_def candidates = do
  items ← collect F filter projection p (within limit candidates)
  ok (record {
    items = items;
    count = length items;
    scanned_count = length (within limit candidates);
    last_evaluated_key =
        next_key (has_more limit candidates) (last_of (within limit candidates)) hash_def range_def;
  })
