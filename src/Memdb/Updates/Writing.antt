-- ===== src/Memdb/Updates/Writing.antt =====
-- memdb/expression.go: what setNestedPath and removeNestedPath do to what can be read.
use dynago.Prelude.{
  ◌≡◌, ◌≢◌, ◌⊎◌, refl, sym, ap, ◌∙◌, Bool, true, false, List, [], ◌∷◌, Bytes, none, some, ≟_iff,
  Option-cases, inl, inr, arith,
}
use dynago.Attribute.{AttributeValue, Item, no_attrs, type_m}
use dynago.Attribute.Items.{
  get_attr, set_attr, get_attr-set_attr, get_attr-delete_attr, set_attr_same,
}
use dynago.Expr.Paths.{walk, resolve_path_value}
use dynago.Memdb.Updates.Changes.{set_nested, remove_nested}

-- Whether every proper prefix of a path is absent or a map.
unfoldable pub is_open : Bytes → List Bytes → Item → Bool
is_open part [] item = true
is_open part (next ∷ parts) item = elim (get_attr part item) [
  | none ↦ true
  | some (type_m m) ↦ is_open next parts m
  | _ ↦ false
]

get_set_self : (k : Bytes) (v : AttributeValue) (m : Item) → get_attr k (set_attr k v m) ≡ some v
get_set_self k v m = ground (arith, get_attr-set_attr k k v m, ≟_iff k k)

contradiction : true ≡ false → ⊥
contradiction h = cc

other_attr :
    (part j : Bytes) (v : AttributeValue) (item : Item)
    → part ≢ j
    → get_attr j (set_attr part v item) ≡ get_attr j item
other_attr part j v item h = ground (arith, get_attr-set_attr part j v item, ≟_iff part j)

is_open_empty : (part : Bytes) (parts : List Bytes) → is_open part parts no_attrs ≡ true
unfolding is_open get_attr
is_open_empty part [] = refl
is_open_empty part (next ∷ parts) = refl

-- One step of a path, from what the map under its first part does.
module _ (part next : Bytes) (parts : List Bytes) (val : AttributeValue) (item : Item) where
  set_absent :
      get_attr part item ≡ none
      → set_nested part (next ∷ parts) val item
        ≡ set_attr part (type_m (set_nested next parts val no_attrs)) item
  unfolding set_nested
  set_absent absent = rw (absent, set_nested)

  set_map :
      (m : Item)
      → get_attr part item ≡ some (type_m m)
      → set_nested part (next ∷ parts) val item
        ≡ set_attr part (type_m (set_nested next parts val m)) item
  unfolding set_nested
  set_map m present = rw (present, set_nested)

  open_map :
      (m : Item)
      → get_attr part item ≡ some (type_m m)
      → is_open part (next ∷ parts) item ≡ is_open next parts m
  unfolding is_open
  open_map m present = rw (present, is_open)

  -- What a path reads after a map was written under its first part.
  resolve_below :
      (m : Item)
      → resolve_path_value (part ∷ next ∷ parts) (set_attr part (type_m m) item)
        ≡ resolve_path_value (next ∷ parts) m
  unfolding resolve_path_value walk
  resolve_below m = rw (get_set_self)

-- A value that is no map closes the path.
module _ (part next : Bytes) (parts : List Bytes) (val v : AttributeValue) (item : Item) where
  closed :
      get_attr part item ≡ some v
      → is_open part (next ∷ parts) item ≡ true
      → (m : Item) × (v ≡ type_m m)
  unfolding is_open
  closed present h = ground arith

  blocked :
      get_attr part item ≡ some v
      → ((m : Item) × (v ≡ type_m m)) ⊎ (set_nested part (next ∷ parts) val item ≡ item)
  unfolding set_nested
  blocked present = ground arith

  is_open_absent : get_attr part item ≡ none → is_open part (next ∷ parts) item ≡ true
  unfolding is_open
  is_open_absent absent = rw (absent, is_open)

-- After a write along an open path a read of the path gives the written value.
pub resolve-set_nested :
    (part : Bytes) (parts : List Bytes) (val : AttributeValue) (item : Item)
    → is_open part parts item ≡ true
    → resolve_path_value (part ∷ parts) (set_nested part parts val item) ≡ some val
unfolding resolve_path_value walk set_nested
resolve-set_nested part [] val item h = get_set_self part val item
resolve-set_nested part (next ∷ parts) val item h = elim (Option-cases (get_attr part item)) [
  | inl absent ↦
      ap (resolve_path_value (part ∷ next ∷ parts)) (set_absent part next parts val item absent)
      ∙ resolve_below part next parts val item (set_nested next parts val no_attrs)
      ∙ resolve-set_nested next parts val no_attrs (is_open_empty next parts)
  | inr (v, present) ↦
      let (m, is_map) = closed part next parts val v item present h in
      let here = present ∙ ap some is_map in
      ap (resolve_path_value (part ∷ next ∷ parts)) (set_map part next parts val item m here)
      ∙ resolve_below part next parts val item (set_nested next parts val m)
      ∙ resolve-set_nested next parts val m (sym (open_map part next parts val item m here) ∙ h)
]

-- A write along a path that leads through a value that is no map changes nothing: it is dropped, with
-- no error.
set_nested_closed :
    (part : Bytes) (parts : List Bytes) (val : AttributeValue) (item : Item)
    → is_open part parts item ≡ false
    → set_nested part parts val item ≡ item
set_nested_closed part [] val item h = unfold is_open in cc h
set_nested_closed part (next ∷ parts) val item h = elim (Option-cases (get_attr part item)) [
  | inl absent ↦
      absurd (contradiction (sym (is_open_absent part next parts val val item absent) ∙ h))
  | inr (v, present) ↦ elim (blocked part next parts val v item present) [
    | inr same ↦ same
    | inl (m, is_map) ↦
        let here = present ∙ ap some is_map in
        set_map part next parts val item m here
        ∙ ap (λ x. set_attr part (type_m x) item)
            (set_nested_closed next parts val m
              (sym (open_map part next parts val item m here) ∙ h))
        ∙ set_attr_same part (type_m m) item here
  ]
]

-- A write below one attribute leaves every other attribute of the item as it was.
get_attr-set_nested :
    (part j : Bytes) (parts : List Bytes) (val : AttributeValue) (item : Item)
    → part ≢ j
    → get_attr j (set_nested part parts val item) ≡ get_attr j item
get_attr-set_nested part j [] val item h =
    unfold set_nested in ground (arith, get_attr-set_attr part j val item, ≟_iff part j)
get_attr-set_nested part j (next ∷ parts) val item h = elim (Option-cases (get_attr part item)) [
  | inl absent ↦
      ap (get_attr j) (set_absent part next parts val item absent) ∙ other_attr part j _ item h
  | inr (v, present) ↦ elim (blocked part next parts val v item present) [
    | inr same ↦ ap (get_attr j) same
    | inl (m, is_map) ↦
        ap (get_attr j) (set_map part next parts val item m (present ∙ ap some is_map))
        ∙ other_attr part j _ item h
  ]
]

module _ (part next : Bytes) (parts : List Bytes) (item : Item) where
  remove_map :
      (m : Item)
      → get_attr part item ≡ some (type_m m)
      → remove_nested part (next ∷ parts) item
        ≡ set_attr part (type_m (remove_nested next parts m)) item
  unfolding remove_nested
  remove_map m present = rw (present, remove_nested)

  remove_absent : get_attr part item ≡ none → remove_nested part (next ∷ parts) item ≡ item
  unfolding remove_nested
  remove_absent absent = rw (absent, remove_nested)

  remove_blocked :
      (v : AttributeValue)
      → get_attr part item ≡ some v
      → ((m : Item) × (v ≡ type_m m))
        ⊎ ((remove_nested part (next ∷ parts) item ≡ item)
            × (resolve_path_value (part ∷ next ∷ parts) item ≡ none))
  unfolding remove_nested resolve_path_value walk
  remove_blocked v present = ground arith

  resolve_absent : get_attr part item ≡ none → resolve_path_value (part ∷ next ∷ parts) item ≡ none
  unfolding resolve_path_value walk
  resolve_absent absent = rw (absent, walk)

-- After a removal a read of the path gives nothing, whatever stood along the path.
pub resolve-remove_nested :
    (part : Bytes) (parts : List Bytes) (item : Item)
    → resolve_path_value (part ∷ parts) (remove_nested part parts item) ≡ none
unfolding resolve_path_value walk remove_nested
resolve-remove_nested part [] item =
    ground (arith, get_attr-delete_attr part part item, ≟_iff part part)
resolve-remove_nested part (next ∷ parts) item =
    let path = part ∷ next ∷ parts in
    elim (Option-cases (get_attr part item)) [
      | inl absent ↦
          ap (resolve_path_value path) (remove_absent part next parts item absent)
          ∙ resolve_absent part next parts item absent
      | inr (v, present) ↦ elim (remove_blocked part next parts item v present) [
        | inr (same, nothing) ↦ ap (resolve_path_value path) same ∙ nothing
        | inl (m, is_map) ↦
            ap (resolve_path_value path)
              (remove_map part next parts item m (present ∙ ap some is_map))
            ∙ resolve_below part next parts v item (remove_nested next parts m)
            ∙ resolve-remove_nested next parts m
      ]
    ]
