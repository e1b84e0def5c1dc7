-- ===== src/Memdb/Gsi/Consistent.antt =====
-- memdb/memdb.go: an index next to its table, when the table changes at one place and updateGSIs is
-- given what the place held and what it holds.
use dynago.Prelude.{
  ◌≡◌, sym, ap, ◌∙◌, Bool, true, false, Bytes, Option, none, some, ≟_iff, Bool-cases, Option-cases,
  if_yes, if_no, inl, inr, if◌then◌else◌, arith, ok,
}
use mathlib.Core.Path.{ap₂}
use mathlib.Core.Bool.{false≢true as false_true}
use dynago.Attribute.{Item}
use dynago.Memdb.Schema.{Partitions, GsiSchema, GsiData, TableSchema}
use dynago.Memdb.Keys.{extract_key}
use dynago.Memdb.Partitions.{get_item}
use dynago.Memdb.Gsi.{gsi_key, update_gsi}
use dynago.Memdb.Gsi.Entries.{is_at, key_in, is_at→eq, is_at_self, get_item-update_gsi}

not_found : (x : Item) → none ≡ some x → ⊥
not_found x h = cc

not_indexed : {k : Bytes × Bytes} → none ≡ some k → ⊥
not_indexed h = cc

some_eq : {x y : Item} → some x ≡ some y → x ≡ y
some_eq h = cc

-- Every item stands at the place that its own attributes name.
pub record IsKeyed (schema : TableSchema) (items : Partitions) : Type 0 where
  pub at_place :
      (h r : Bytes) (item : Item)
      → get_item h r items ≡ some item
      → extract_key schema item ≡ ok (h, r)

-- Each entry of the index is an item of the table, at its index key.
pub record IsSound (schema : GsiSchema) (items entries : Partitions) : Type 0 where
  pub entry :
      (k s : Bytes) (item : Item)
      → get_item k s entries ≡ some item
      → (h : Bytes) × (r : Bytes) × (get_item h r items ≡ some item)
        × (gsi_key schema item ≡ some (k, s))

-- Each item of the table that has an index key is in the index.
pub record IsComplete (schema : GsiSchema) (items entries : Partitions) : Type 0 where
  pub found :
      (h r k s : Bytes) (item : Item)
      → get_item h r items ≡ some item
      → gsi_key schema item ≡ some (k, s)
      → get_item k s entries ≡ some item

-- `after` is `before` with `new` (none for a deletion) at the place (h, r).
pub record Writes (h r : Bytes) (new : Option Item) (before after : Partitions) : Type 0 where
  pub reads :
      (k s : Bytes)
      → get_item k s after ≡ (if is_at (some (h, r)) k s then new else get_item k s before)

-- No item at another place has the index key of the new item.
pub record NoClash (schema : GsiSchema) (h r : Bytes) (new : Option Item) (items : Partitions)
    : Type 0 where
  pub alone :
      (k s a b : Bytes) (other : Item)
      → get_item k s items ≡ some other
      → gsi_key schema other ≡ some (a, b)
      → key_in schema new ≡ some (a, b)
      → is_at (some (h, r)) k s ≡ true

module _ (h r : Bytes) (new : Option Item) (before after : Partitions)
    (w : Writes h r new before after) where
  same_place : (k s : Bytes) → is_at (some (h, r)) k s ≡ true → (k ≡ h) × (s ≡ r)
  same_place k s e = ground (arith, ≟_iff h k, ≟_iff r s)

  -- An entry that survives belongs to another place than the one written.
  sound_entry :
      (gsi : GsiData) (k s : Bytes) (item : Item)
      → IsSound gsi.schema before gsi.items
      → is_at (key_in gsi.schema (get_item h r before)) k s ≡ false
      → get_item k s gsi.items ≡ some item
      → (a : Bytes) × (b : Bytes) × (get_item a b after ≡ some item)
        × (gsi_key gsi.schema item ≡ some (k, s))
  sound_entry gsi k s item sound kept e =
      let (a, b, here, key) = sound.entry k s item e in
      elim (Bool-cases (is_at (some (h, r)) a b)) [
        | inl hit ↦
            let (a_h, b_r) = same_place a b hit in
            absurd (
              false_true (
                sym kept
                ∙ ap (λ o. is_at (key_in gsi.schema o) k s)
                    (ap₂ (λ x y. get_item x y before) (sym a_h) (sym b_r) ∙ here)
                ∙ ap (λ o. is_at o k s) key
                ∙ is_at_self k s))
        | inr miss ↦
            (a, b, w.reads a b ∙ ap (λ t. if t then new else get_item a b before) miss ∙ here, key)
      ]

  -- What an entry of the updated index is: the new item, or an old entry.
  module _ (gsi : GsiData) (k s : Bytes) where
    placed : Bool
    placed = is_at (key_in gsi.schema new) k s

    cleared : Bool
    cleared = is_at (key_in gsi.schema (get_item h r before)) k s

    entry_new : placed ≡ true → get_item k s (update_gsi (get_item h r before) new gsi).items ≡ new
    unfolding placed
    entry_new hit = get_item-update_gsi _ new gsi k s ∙ if_yes _ _ _ hit

    entry_old :
        placed ≡ false
        → get_item k s (update_gsi (get_item h r before) new gsi).items
          ≡ (if cleared then none else get_item k s gsi.items)
    unfolding placed cleared
    entry_old miss = get_item-update_gsi _ new gsi k s ∙ if_no _ _ _ miss

  key_of_new :
      (schema : GsiSchema) (k s : Bytes) (item : Item)
      → is_at (key_in schema new) k s ≡ true
      → new ≡ some item
      → gsi_key schema item ≡ some (k, s)
  key_of_new schema k s item hit e =
      ap (key_in schema) (sym e) ∙ is_at→eq (key_in schema new) k s hit

  -- The index stays sound.
  pub IsSound-update :
      (gsi : GsiData)
      → IsSound gsi.schema before gsi.items
      → IsSound gsi.schema after (update_gsi (get_item h r before) new gsi).items
  unfolding placed cleared
  IsSound-update gsi sound = record {
    entry = λ k s item e. elim (Bool-cases (placed gsi k s)) [
      | inl hit ↦
          let is_new = sym (entry_new gsi k s hit) ∙ e in
          (
            h,
            r,
            w.reads h r ∙ if_yes _ _ _ (is_at_self h r) ∙ is_new,
            key_of_new gsi.schema k s item hit is_new,
          )
      | inr miss ↦ elim (Bool-cases (cleared gsi k s)) [
        | inl gone ↦ absurd (not_found item (sym (entry_old gsi k s miss ∙ if_yes _ _ _ gone) ∙ e))
        | inr kept ↦
            sound_entry gsi k s item sound kept
              (sym (entry_old gsi k s miss ∙ if_no _ _ _ kept) ∙ e)
      ]
    ];
  }

  -- Two items with one index key stand at one place.
  same_item :
      (schema : TableSchema) (a b : Bytes) (x y : Item)
      → IsKeyed schema before
      → get_item h r before ≡ some x
      → get_item a b before ≡ some y
      → x ≡ y
      → is_at (some (h, r)) a b ≡ true
  same_item schema a b x y keyed ex ey e =
      ground (arith, keyed.at_place h r x ex, keyed.at_place a b y ey, ≟_iff h a, ≟_iff r b)

  -- The place that the update clears held the written item, and no other item of the table.
  not_cleared :
      (schema : TableSchema) (gsi : GsiData) (a b k s : Bytes) (item : Item)
      → IsKeyed schema before
      → IsComplete gsi.schema before gsi.items
      → get_item a b before ≡ some item
      → gsi_key gsi.schema item ≡ some (k, s)
      → is_at (key_in gsi.schema (get_item h r before)) k s ≡ true
      → is_at (some (h, r)) a b ≡ true
  not_cleared schema gsi a b k s item keyed complete e key gone =
      let at_old = is_at→eq (key_in gsi.schema (get_item h r before)) k s gone in
      elim (Option-cases (get_item h r before)) [
        | inl absent ↦ absurd (not_indexed (sym (ap (key_in gsi.schema) absent) ∙ at_old))
        | inr (old, present) ↦
            let old_key = sym (ap (key_in gsi.schema) present) ∙ at_old in
            same_item schema a b old item keyed present e (
              some_eq (
                sym (complete.found h r k s old present old_key)
                ∙ complete.found a b k s item e key))
      ]

  -- The index stays complete, if the new item clashes with no other.
  pub IsComplete-update :
      (schema : TableSchema) (gsi : GsiData)
      → IsKeyed schema before
      → NoClash gsi.schema h r new before
      → IsComplete gsi.schema before gsi.items
      → IsComplete gsi.schema after (update_gsi (get_item h r before) new gsi).items
  unfolding placed cleared
  IsComplete-update schema gsi keyed clash complete = record {
    found = λ a b k s item e key. elim (Bool-cases (is_at (some (h, r)) a b)) [
      | inl here ↦
          let is_new = sym (w.reads a b ∙ if_yes _ _ _ here) ∙ e in
          entry_new gsi k s (
            ap (λ o. is_at (key_in gsi.schema o) k s) is_new
            ∙ ap (λ o. is_at o k s) key
            ∙ is_at_self k s)
          ∙ is_new
      | inr away ↦
          let before_e = sym (w.reads a b ∙ if_no _ _ _ away) ∙ e in
          elim (Bool-cases (placed gsi k s)) [
            | inl hit ↦ absurd (
                false_true (
                  sym away
                  ∙ clash.alone a b k s item before_e key
                      (is_at→eq (key_in gsi.schema new) k s hit)))
            | inr miss ↦ elim (Bool-cases (cleared gsi k s)) [
              | inl gone ↦ absurd (
                  false_true (
                    sym away
                    ∙ not_cleared schema gsi a b k s item keyed complete before_e key gone))
              | inr kept ↦
                  entry_old gsi k s miss
                  ∙ if_no _ _ _ kept
                  ∙ complete.found a b k s item before_e key
            ]
          ]
    ];
  }
