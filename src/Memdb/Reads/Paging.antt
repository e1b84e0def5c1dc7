-- ===== src/Memdb/Reads/Paging.antt =====
-- memdb/memdb.go: the pages of a Query and the keys at which they start.
use dynago.Prelude.{
  ℕ, zero, suc, ◌<◌, ◌≡◌, refl, sym, ap, ◌∙◌, Bool, true, List, [], ◌∷◌, ◌++◌, Bytes, Option, some,
  Assoc, lookup, keys, keep, map, take, drop, length, ◌≟◌, ≟_iff, if_yes, if_no, Bool-cases,
  Option-cases, inl, inr, ok, arith,
}
use mathlib.Core.Path.{subst}
use mathlib.Core.List.{append_assoc}
use dynago.Attribute.{AttributeValue, Item, no_attrs, attr, deep_copy_av, deep_copy_av_lem}
use dynago.Attribute.Items.{get_attr, set_attr, get_attr-set_attr}
use dynago.Expr.Floats.{FloatOps}
use dynago.Expr.Eval.{set_has}
use dynago.Memdb.Schema.{KeyDef, TableData}
use dynago.Memdb.Keys.{key_string, key_of}
use dynago.Memdb.Keys.Injective.{key_of-eq-ok}
use dynago.Memdb.KeyCondition.Parse.{SortKeyCondition}
use dynago.Memdb.Updates.StringSets.{IsDistinct}
use dynago.Memdb.Reads.Sort.{sort_strings}
use dynago.Memdb.Reads.Page.{build_last_evaluated_key, last_of}
use dynago.Memdb.Reads.Query.{
  Source, source_of, item_at, start_range, behind, from_start, directed, satisfies, candidates,
}
use dynago.Memdb.Reads.Distinct.{
  set_has-sort_strings, set_has-directed, IsDistinct-directed, behind_split, lookup-set_has,
}

-- A longer list has the same last item.
last_of-cons : (x y : Item) (xs : List Item) → last_of xs ≡ some y → last_of (x ∷ xs) ≡ some y
unfolding last_of
last_of-cons x y [] h = cc
last_of-cons x y (z ∷ xs) h = h

-- Where a page of the first `n` of the kept items ends, and what stands behind it.
abbrev Page : (Item → Bool) → (Bytes → Item) → List Bytes → List Item → ℕ → Type 0
Page p f rks kept n =
    (pre : List Bytes) × (rk : Bytes) × (post : List Bytes) × (rks ≡ pre ++ rk ∷ post)
    × (last_of (take n kept) ≡ some (f rk))
    × (keep p (map f post) ≡ drop n kept)

module _ (p : Item → Bool) (f : Bytes → Item) where
  grown-Page :
      (k : Bytes) (rks : List Bytes) (n : ℕ)
      → n < suc (length (keep p (map f rks)))
      → ((m : ℕ) → m < length (keep p (map f rks)) → Page p f rks (keep p (map f rks)) (suc m))
      → Page p f (k ∷ rks) (f k ∷ keep p (map f rks)) (suc n)
  unfolding last_of
  grown-Page k rks zero h shorter = ([], k, rks, refl, refl, refl)
  grown-Page k rks (suc m) h shorter =
      let (pre, rk, post, split, last, rest) = shorter m (omega arith) in
      (
        k ∷ pre,
        rk,
        post,
        ap (◌∷◌ k) split,
        last_of-cons (f k) (f rk) (take (suc m) (keep p (map f rks))) last,
        rest,
      )

  start-Page :
      (rks : List Bytes) (n : ℕ)
      → n < length (keep p (map f rks))
      → Page p f rks (keep p (map f rks)) (suc n)
  start-Page [] n h = absurd (omega arith)
  start-Page (k ∷ rks) n h = elim (Bool-cases (p (f k))) [
    | inr out ↦
        let same : keep p (map f (k ∷ rks)) ≡ keep p (map f rks) = if_no (p (f k)) _ _ out in
        let (pre, rk, post, split, last, rest) =
          start-Page rks n (subst (λ l. n < length l) same h) in
        subst (λ l. Page p f (k ∷ rks) l (suc n)) (sym same)
          (k ∷ pre, rk, post, ap (◌∷◌ k) split, last, rest)
    | inl in_page ↦
        let grown : keep p (map f (k ∷ rks)) ≡ f k ∷ keep p (map f rks) =
          if_yes (p (f k)) _ _ in_page in
        subst (λ l. Page p f (k ∷ rks) l (suc n)) (sym grown)
          (grown-Page k rks n (subst (λ l. n < length l) grown h) (start-Page rks))
  ]

copied_attr :
    (name : Bytes) (v : AttributeValue) (key : Item)
    → get_attr name (set_attr name (deep_copy_av v) key) ≡ some v
copied_attr name v key =
    ground
      (arith, get_attr-set_attr name name (deep_copy_av v) key, deep_copy_av_lem v, ≟_iff name name)

-- The key of an item whose range key is `rk` starts behind `rk`.
start_range-last :
    (item : Item) (hash_def def : KeyDef) (rk : Bytes)
    → key_of def item ≡ ok rk
    → (v : AttributeValue) × (get_attr def.name (build_last_evaluated_key item hash_def (some def))
        ≡ some v)
      × (key_string v ≡ rk)
unfolding build_last_evaluated_key
start_range-last item hash_def def rk h =
    let (v, present, named, ne) = key_of-eq-ok def item rk h in
    (v, rw (present, copied_attr), named)

start_range-present :
    (def : KeyDef) (start : Item) (v : AttributeValue)
    → get_attr def.name start ≡ some v
    → start_range (some def) start ≡ key_string v
unfolding start_range
start_range-present def start v h = rw (h, start_range)

-- A start key that has the range attribute goes on behind it.
from_start-key :
    (def : KeyDef) (start : Item) (v : AttributeValue) (rks later : List Bytes)
    → get_attr def.name start ≡ some v
    → behind (key_string v) rks ≡ some later
    → from_start (some def) start rks ≡ later
unfolding from_start
from_start-key def no_attrs v rks later h found = unfold get_attr in cc h
from_start-key def (attr k w start) v rks later h found =
    let here : behind (start_range (some def) (attr k w start)) rks ≡ some later =
      ap (λ r. behind r rks) (start_range-present def (attr k w start) v h) ∙ found in
    rw (here, from_start)

behind_suffix :
    (start : Bytes) (rks later : List Bytes)
    → behind start rks ≡ some later
    → (pre : List Bytes) × (rks ≡ pre ++ later)
unfolding behind
behind_suffix start [] later h = cc h
behind_suffix start (rk ∷ rks) later h = elim (Bool-cases (rk ≟ start)) [
  | inl here ↦ (rk ∷ [], ground arith)
  | inr there ↦
      let (pre, split) = behind_suffix start rks later (ground arith) in
      (rk ∷ pre, ap (◌∷◌ rk) split)
]

-- Starting leaves out keys at the front only.
from_start-suffix :
    (range_def : Option KeyDef) (start : Item) (rks : List Bytes)
    → (pre : List Bytes) × (rks ≡ pre ++ from_start range_def start rks)
unfolding from_start
from_start-suffix range_def no_attrs rks = ([], refl)
from_start-suffix range_def (attr k v start) rks =
    elim (Option-cases (behind (start_range range_def (attr k v start)) rks)) [
      | inl absent ↦ ([], rw (absent, from_start))
      | inr (later, present) ↦
          let (pre, split) =
            behind_suffix (start_range range_def (attr k v start)) rks later present in
          (pre, rw (present, from_start) split)
    ]

set_has-middle : (pre post : List Bytes) (rk : Bytes) → set_has (pre ++ rk ∷ post) rk ≡ true
unfolding set_has
set_has-middle [] post rk = ground (arith, ≟_iff rk rk)
set_has-middle (x ∷ pre) post rk = ground (arith, set_has-middle pre post rk)

some_eq : {x y : Item} → some x ≡ some y → x ≡ y
some_eq e = cc

module _ (F : FloatOps) (cond : Option SortKeyCondition) (hash_def def : KeyDef)
    (forward : Option Bool) where
  abbrev listed : Assoc Item → List Bytes
  listed rng = directed forward (sort_strings (keys rng))

  -- A listed key has an item, whose key it is.
  listed_item :
      (rng : Assoc Item) (rk : Bytes)
      → ((k : Bytes) (item : Item) → lookup k rng ≡ some item → key_of def item ≡ ok k)
      → set_has (listed rng) rk ≡ true
      → key_of def (item_at rng rk) ≡ ok rk
  unfolding item_at
  listed_item rng rk keyed h =
      let (item, found) = lookup-set_has rk rng (
        sym (
          set_has-directed forward (sort_strings (keys rng)) rk
          ∙ set_has-sort_strings (keys rng) rk)
        ∙ h) in
      rw (found, item_at) (keyed rk item found)

  -- What a query finds that starts at the key of the item at a listed key.
  candidates_behind :
      (rng : Assoc Item) (pre post : List Bytes) (rk : Bytes)
      → IsDistinct (keys rng)
      → ((k : Bytes) (item : Item) → lookup k rng ≡ some item → key_of def item ≡ ok k)
      → listed rng ≡ pre ++ rk ∷ post
      → candidates F cond
          (some def)
          forward
          (build_last_evaluated_key (item_at rng rk) hash_def (some def))
          rng
        ≡ keep (satisfies F cond (some def)) (map (item_at rng) post)
  unfolding candidates
  candidates_behind rng pre post rk distinct keyed split =
      let stands = ap (λ l. set_has l rk) split ∙ set_has-middle pre post rk in
      let (v, present, named) =
        start_range-last (item_at rng rk) hash_def def rk (listed_item rng rk keyed stands) in
      let once = subst IsDistinct split (IsDistinct-directed forward (keys rng) distinct) in
      let next =
        ap (behind (key_string v)) split
        ∙ ap (λ k. behind k (pre ++ rk ∷ post)) named
        ∙ behind_split pre post rk once in
      ap (λ l. keep (satisfies F cond (some def)) (map (item_at rng) l))
        (from_start-key def (build_last_evaluated_key (item_at rng rk) hash_def (some def)) v
          (listed rng) post present next)

  -- What query_next_page says, of one key schema.
  pub candidates_next_page :
      (start : Item) (rng : Assoc Item) (n : ℕ) (last : Item)
      → IsDistinct (keys rng)
      → ((k : Bytes) (item : Item) → lookup k rng ≡ some item → key_of def item ≡ ok k)
      → suc n < length (candidates F cond (some def) forward start rng)
      → last_of (take (suc n) (candidates F cond (some def) forward start rng)) ≡ some last
      → candidates F cond (some def) forward (build_last_evaluated_key last hash_def (some def)) rng
        ≡ drop (suc n) (candidates F cond (some def) forward start rng)
  unfolding candidates
  candidates_next_page start rng n last distinct keyed more is_last =
      let (front, suffix) = from_start-suffix (some def) start (listed rng) in
      let (pre, rk, post, split, at_end, rest) =
        start-Page (satisfies F cond (some def)) (item_at rng)
          (from_start (some def) start (listed rng)) n (omega (arith, more)) in
      let same = some_eq (sym is_last ∙ at_end) in
      ap
        (λ x.
          candidates F cond (some def) forward (build_last_evaluated_key x hash_def (some def)) rng)
        same
      ∙ candidates_behind rng (front ++ pre) post rk distinct keyed
          (suffix ∙ ap (front ++◌) split ∙ sym (append_assoc front pre (rk ∷ post)))
      ∙ rest

  -- The LastEvaluatedKey of such a page has the range attribute.
  pub next_key_present :
      (start : Item) (rng : Assoc Item) (n : ℕ) (last : Item)
      → ((k : Bytes) (item : Item) → lookup k rng ≡ some item → key_of def item ≡ ok k)
      → suc n < length (candidates F cond (some def) forward start rng)
      → last_of (take (suc n) (candidates F cond (some def) forward start rng)) ≡ some last
      → (v : AttributeValue) × (get_attr def.name
            (build_last_evaluated_key last hash_def (some def))
          ≡ some v)
  unfolding candidates
  next_key_present start rng n last keyed more is_last =
      let (front, suffix) = from_start-suffix (some def) start (listed rng) in
      let (pre, rk, post, split, at_end, rest) =
        start-Page (satisfies F cond (some def)) (item_at rng)
          (from_start (some def) start (listed rng)) n (omega (arith, more)) in
      let same = some_eq (sym is_last ∙ at_end) in
      let whole = suffix ∙ ap (front ++◌) split ∙ sym (append_assoc front pre (rk ∷ post)) in
      let stands = ap (λ l. set_has l rk) whole ∙ set_has-middle (front ++ pre) post rk in
      let (v, present, named) =
        start_range-last (item_at rng rk) hash_def def rk (listed_item rng rk keyed stands) in
      (
        v,
        ap (λ x. get_attr def.name (build_last_evaluated_key x hash_def (some def))) same ∙ present,
      )

-- For a table, not an index: in a partition with distinct keys whose items stand at the table's range
-- key, if there are more candidates than a page of n + 1 items takes, the candidates of the query of
-- the table that starts at the LastEvaluatedKey, which the page's last item and the table's key
-- schema make, are those behind the page, in either direction and under any sort key condition.
pub query_next_page :
    (F : FloatOps) (cond : Option SortKeyCondition) (td : TableData) (source : Source)
    (def : KeyDef) (forward : Option Bool) (start : Item) (rng : Assoc Item) (n : ℕ) (last : Item)
    → source_of [] td ≡ ok source
    → td.schema.range_key ≡ some def
    → IsDistinct (keys rng)
    → ((k : Bytes) (item : Item) → lookup k rng ≡ some item → key_of def item ≡ ok k)
    → suc n < length (candidates F cond source.range_def forward start rng)
    → last_of (take (suc n) (candidates F cond source.range_def forward start rng)) ≡ some last
    → candidates F cond source.range_def forward
        (build_last_evaluated_key last td.schema.hash_key td.schema.range_key)
        rng
      ≡ drop (suc n) (candidates F cond source.range_def forward start rng)
unfolding source_of
query_next_page F cond td source def forward start rng n last read ranged distinct keyed more
      is_last =
    let same : td.schema.range_key ≡ source.range_def = ground (arith, read) in
    let here : source.range_def ≡ some def = sym same ∙ ranged in
    let found = λ (r : Option KeyDef). candidates F cond r forward start rng in
    let next =
      candidates_next_page F cond td.schema.hash_key def forward start rng n last distinct keyed
        (subst (λ r. suc n < length (found r)) here more)
        (subst (λ r. last_of (take (suc n) (found r)) ≡ some last) here is_last) in
    rw (here, ranged) next
