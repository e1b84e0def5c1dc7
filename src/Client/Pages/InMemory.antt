-- ===== src/Client/Pages/InMemory.antt =====
-- query.go on memdb/memdb.go: the in-memory backend serves the pages that the loops of the client read.
use dynago.Prelude.{
  ℕ, zero, suc, ◌<◌, ◌≡◌, ◌⊎◌, inl, inr, refl, sym, ap, ◌∙◌, Bool, true, false, List, [], ◌∷◌, ◌++◌,
  Bytes, Option, some, Assoc, lookup, keys, length, take, drop, take-append-drop, length-drop,
  Bool-cases, ok, ◌>>=◌, >>=-eq-ok, if◌then◌else◌, arith,
}
use mathlib.Core.Path.{subst}
use dynago.Attribute.{AttributeValue, Item, no_attrs, attr, deep_copy_item}
use dynago.Attribute.Items.{get_attr}
use dynago.Backend.{PageResponse}
use dynago.Expr.Floats.{FloatOps}
use dynago.Memdb.Parsing.{Placeholders}
use dynago.Memdb.Schema.{KeyDef}
use dynago.Memdb.Keys.{key_of}
use dynago.Memdb.Conditions.{eval_condition}
use dynago.Memdb.KeyCondition.Parse.{SortKeyCondition}
use dynago.Memdb.Updates.StringSets.{IsDistinct}
use dynago.Memdb.Reads.Project.{project_item}
use dynago.Memdb.Reads.Page.{build_last_evaluated_key, last_of, collect, next_key, has_more, page}
use dynago.Memdb.Reads.Query.{candidates}
use dynago.Memdb.Reads.Paging.{candidates_next_page, next_key_present}
use dynago.Client.Pages.Loops.{Ask, is_last}
use dynago.Client.Pages.Serves.{Serves}

last_exists :
    (n : ℕ) (xs : List Item) → suc n < length xs → (x : Item) × (last_of (take (suc n) xs) ≡ some x)
unfolding last_of
last_exists n [] h = absurd (omega (arith, h))
last_exists n (x ∷ []) h = absurd (omega (arith, h))
last_exists zero (x ∷ y ∷ xs) h = (x, refl)
last_exists (suc n) (x ∷ y ∷ xs) h = last_exists n (y ∷ xs) (omega (arith, h))

-- A key with an attribute is not the empty one.
present_key :
    (name : Bytes) (v : AttributeValue) (key : Item)
    → get_attr name key ≡ some v
    → is_last key ≡ false
unfolding get_attr is_last
present_key name v no_attrs h = cc
present_key name v (attr k w key) h = refl

module _ (F : FloatOps) (filter projection : Bytes) (p : Placeholders) where
  -- A candidate before the items of the others.
  kept : Item → Bool → List Item → List Item
  kept c matched items =
      if matched then project_item (deep_copy_item c) projection p.names ∷ items else items

  kept-append :
      (c : Item) (matched : Bool) (xs ys : List Item)
      → kept c matched (xs ++ ys) ≡ kept c matched xs ++ ys
  unfolding kept
  kept-append c true xs ys = refl
  kept-append c false xs ys = refl

  collect-append :
      (xs ys items : List Item)
      → collect F filter projection p (xs ++ ys) ≡ ok items
      → (front : List Item) × (back : List Item) × ((collect F filter projection p xs ≡ ok front)
          × ((collect F filter projection p ys ≡ ok back) × (items ≡ front ++ back)))
  unfolding collect kept
  collect-append [] ys items e = ([], items, (refl, (e, refl)))
  collect-append (c ∷ xs) ys items e =
      let (matched, holds, chain) =
        >>=-eq-ok (eval_condition F filter p c)
          (λ m. collect F filter projection p (xs ++ ys) >>= λ l. ok (kept c m l)) e in
      let (all, fine, last) =
        >>=-eq-ok (collect F filter projection p (xs ++ ys)) (λ l. ok (kept c matched l)) chain in
      let (front, back, (first, (second, split))) = collect-append xs ys all fine in
      let whole : kept c matched all ≡ items = ground (arith, last) in
      (
        kept c matched front,
        back,
        (
          rw (holds, first) refl,
          (second, sym whole ∙ ap (kept c matched) split ∙ kept-append c matched front back),
        ),
      )

  module _ (cond : Option SortKeyCondition) (hash_def def : KeyDef) (forward : Option Bool)
      (rng : Assoc Item) where
    -- Query on a partition, for a Limit and an ExclusiveStartKey.
    abbrev pub ask_partition : Ask
    ask_partition limit start =
        page F filter projection p limit hash_def (some def)
          (candidates F cond (some def) forward start rng)

    -- What a page that has more behind it needs of the pages behind.
    going_on :
        (n limit : ℕ) (start : Item) (items : List Item)
        → IsDistinct (keys rng)
        → ((k : Bytes) (item : Item) → lookup k rng ≡ some item → key_of def item ≡ ok k)
        → length (candidates F cond (some def) forward start rng) < suc n
        → collect F filter projection p (candidates F cond (some def) forward start rng) ≡ ok items
        → has_more limit (candidates F cond (some def) forward start rng) ≡ true
        → ((next : Item) (later : List Item)
            → length (candidates F cond (some def) forward next rng) < n
            → collect F filter projection p (candidates F cond (some def) forward next rng)
              ≡ ok later
            → Serves ask_partition n next later)
        → (resp : PageResponse) × (ask_partition limit start ≡ ok resp)
          × (((is_last resp.last_evaluated_key ≡ true) × (items ≡ resp.items))
              ⊎ ((is_last resp.last_evaluated_key ≡ false)
                  × ((later : List Item) × (items ≡ resp.items ++ later)
                      × Serves ask_partition n resp.last_evaluated_key later)))
    unfolding page next_key
    going_on n zero start items distinct keyed enough fine going serves =
        absurd (ground (arith, going))
    going_on n (suc m) start items distinct keyed enough fine going serves =
        let found = candidates F cond (some def) forward start rng in
        let longer : suc m < length found = ground (arith, going) in
        let (last, at_end) = last_exists m found longer in
        let (v, present) =
          next_key_present F cond hash_def def forward start rng m last keyed longer at_end in
        let next = build_last_evaluated_key last hash_def (some def) in
        let behind =
          candidates_next_page F cond hash_def def forward start rng m last distinct keyed longer
            at_end in
        let (front, back, (first, (second, split))) =
          collect-append (take (suc m) found) (drop (suc m) found) items (
            subst (λ l. collect F filter projection p l ≡ ok items)
              (sym (take-append-drop (suc m) found)) fine) in
        (
          record {
            items = front;
            count = length front;
            scanned_count = length (take (suc m) found);
            last_evaluated_key = next;
          },
          rw (going, first, at_end) refl,
          inr (
            present_key def.name v next present,
            (
              back,
              split,
              serves next back
                  (omega (arith, ap length behind, length-drop (suc m) found, enough, longer))
                  (ap (collect F filter projection p) behind ∙ second),
            ),
          ),
        )

    pub ask_partition-Serves :
        (n : ℕ) (start : Item) (items : List Item)
        → IsDistinct (keys rng)
        → ((k : Bytes) (item : Item) → lookup k rng ≡ some item → key_of def item ≡ ok k)
        → length (candidates F cond (some def) forward start rng) < n
        → collect F filter projection p (candidates F cond (some def) forward start rng) ≡ ok items
        → Serves ask_partition n start items
    unfolding page next_key is_last
    ask_partition-Serves zero start items distinct keyed enough fine =
        absurd (omega (arith, enough))
    ask_partition-Serves (suc n) start items distinct keyed enough fine = λ limit.
        let found = candidates F cond (some def) forward start rng in
        elim (Bool-cases (has_more limit found)) [
          | inr over ↦ (
            record {
              items = items;
              count = length items;
              scanned_count = length found;
              last_evaluated_key = no_attrs;
            },
            rw (over, fine) refl,
            inl (refl, refl),
          )
          | inl going ↦
              going_on n limit start items distinct keyed enough fine going
                (λ next later few rest. ask_partition-Serves n next later distinct keyed few rest)
        ]
