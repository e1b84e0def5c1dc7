-- ===== src/Memdb/Writes/Stored.antt =====
-- memdb/memdb.go: a table and its indexes around storeItem, deleteItem and updateGSIs.
use dynago.Prelude.{
  ◌≡◌, sym, ap, ◌∙◌, [], ◌∷◌, Bytes, Option, none, some, Assoc, if_yes, if_no, Bool-cases, inl, inr,
  ok,
}
use dynago.Attribute.{Item}
use dynago.Memdb.Schema.{Partitions, GsiData, TableSchema, TableData}
use dynago.Memdb.Keys.{extract_key}
use dynago.Memdb.Partitions.{
  store_item, get_item, delete_item, get_item-store_item, get_item-delete_item,
  delete_item-eq-get_item,
}
use dynago.Memdb.Gsi.{update_each, update_gsis}
use dynago.Memdb.Gsi.Entries.{is_at, is_at→eq}
use dynago.Memdb.Gsi.Consistent.{
  IsKeyed, IsSound, IsComplete, Writes, NoClash, IsSound-update, IsComplete-update,
}
use dynago.Memdb.Writes.Single.{put_stored, delete_stored}

some_eq {ℓ} : {A : Type ℓ} {x y : A} → some x ≡ some y → x ≡ y
some_eq h = cc

-- A statement about every index of a table.
abbrev pub AllIndexes : (GsiData → Type 0) → Assoc GsiData → Type 0
AllIndexes P [] = Unit
AllIndexes P ((name, gsi) ∷ rest) = P gsi × AllIndexes P rest

-- Items stand at their keys, and every index entry is an item of the table.
pub record IsSoundTable (td : TableData) : Type 0 where
  pub keyed : IsKeyed td.schema td.items
  pub sound : AllIndexes (λ gsi. IsSound gsi.schema td.items gsi.items) td.gsis

-- Every index holds each item of the table that has its key.
abbrev pub IsCompleteTable : TableData → Type 0
IsCompleteTable td = AllIndexes (λ gsi. IsComplete gsi.schema td.items gsi.items) td.gsis

-- No index has another item at the key of the new one.
abbrev pub NoClashes : Bytes → Bytes → Option Item → TableData → Type 0
NoClashes h r new td = AllIndexes (λ gsi. NoClash gsi.schema h r new td.items) td.gsis

store-Writes :
    (h r : Bytes) (item : Item) (items : Partitions)
    → Writes h r (some item) items (store_item h r item items)
store-Writes h r item items = record { reads = λ k s. get_item-store_item h r k s item items }

delete-Writes : (h r : Bytes) (items : Partitions) → Writes h r none items (delete_item h r items).0
delete-Writes h r items = record { reads = λ k s. get_item-delete_item h r k s items }

module _ (h r : Bytes) (new : Option Item) (before after : Partitions)
    (w : Writes h r new before after) where
  all-IsSound :
      (gsis : Assoc GsiData)
      → AllIndexes (λ gsi. IsSound gsi.schema before gsi.items) gsis
      → AllIndexes
          (λ gsi. IsSound gsi.schema after gsi.items)
          (update_each (get_item h r before) new gsis)
  unfolding update_each
  all-IsSound [] all = tt
  all-IsSound ((name, gsi) ∷ rest) all =
      (IsSound-update h r new before after w gsi all.0, all-IsSound rest all.1)

  all-IsComplete :
      (schema : TableSchema) (gsis : Assoc GsiData)
      → IsKeyed schema before
      → AllIndexes (λ gsi. NoClash gsi.schema h r new before) gsis
      → AllIndexes (λ gsi. IsComplete gsi.schema before gsi.items) gsis
      → AllIndexes
          (λ gsi. IsComplete gsi.schema after gsi.items)
          (update_each (get_item h r before) new gsis)
  unfolding update_each
  all-IsComplete schema [] keyed clash all = tt
  all-IsComplete schema ((name, gsi) ∷ rest) keyed clash all = (
    IsComplete-update h r new before after w schema gsi keyed clash.0 all.0,
    all-IsComplete schema rest keyed clash.1 all.1,
  )

  -- The written place is the only one that changes, and its item has its key.
  after-IsKeyed :
      (schema : TableSchema)
      → ((item : Item) → new ≡ some item → extract_key schema item ≡ ok (h, r))
      → IsKeyed schema before
      → IsKeyed schema after
  after-IsKeyed schema own keyed = record {
    at_place = λ k s item e. elim (Bool-cases (is_at (some (h, r)) k s)) [
      | inl here ↦
          own item (sym (w.reads k s ∙ if_yes _ _ _ here) ∙ e)
          ∙ ap ok (some_eq (is_at→eq (some (h, r)) k s here))
      | inr away ↦ keyed.at_place k s item (sym (w.reads k s ∙ if_no _ _ _ away) ∙ e)
    ];
  }

none-NoClash :
    (h r : Bytes) (items : Partitions) (gsis : Assoc GsiData)
    → AllIndexes (λ gsi. NoClash gsi.schema h r none items) gsis
none-NoClash h r items [] = tt
none-NoClash h r items ((name, gsi) ∷ rest) =
    (record { alone = λ k s a b other e key hit. cc }, none-NoClash h r items rest)

module _ (h r : Bytes) (td : TableData) where
  pub put_stored-IsSoundTable :
      (item : Item)
      → extract_key td.schema item ≡ ok (h, r)
      → IsSoundTable td
      → IsSoundTable (put_stored h r (get_item h r td.items) item td)
  unfolding put_stored update_gsis
  put_stored-IsSoundTable item key v =
      let w = store-Writes h r item td.items in
      record {
        keyed =
            after-IsKeyed h r _ _ _ w td.schema
              (λ x e. ap (extract_key td.schema) (some_eq (sym e)) ∙ key) v.keyed;
        sound = all-IsSound h r _ _ _ w td.gsis v.sound;
      }

  -- If a table is sound and its indexes are complete, and no index has another item at the index
  -- key of the new item, then after storing the item every index again holds each indexed item.
  pub put_stored-IsCompleteTable :
      (item : Item)
      → IsSoundTable td
      → NoClashes h r (some item) td
      → IsCompleteTable td
      → IsCompleteTable (put_stored h r (get_item h r td.items) item td)
  unfolding put_stored update_gsis
  put_stored-IsCompleteTable item v clash all =
      all-IsComplete h r _ _ _ (store-Writes h r item td.items) td.schema td.gsis v.keyed clash all

  pub delete_stored-IsSoundTable : IsSoundTable td → IsSoundTable (delete_stored h r td)
  unfolding delete_stored update_gsis
  delete_stored-IsSoundTable v =
      let w = delete-Writes h r td.items in
      rw delete_item-eq-get_item (record {
        keyed = after-IsKeyed h r _ _ _ w td.schema (λ x e. cc) v.keyed;
        sound = all-IsSound h r _ _ _ w td.gsis v.sound;
      })

  -- If a table is sound and its indexes are complete, then after a deletion every index again holds
  -- each indexed item of the table.
  pub delete_stored-IsCompleteTable :
      IsSoundTable td → IsCompleteTable td → IsCompleteTable (delete_stored h r td)
  unfolding delete_stored update_gsis
  delete_stored-IsCompleteTable v all = rw delete_item-eq-get_item (
      all-IsComplete h r _ _ _ (delete-Writes h r td.items) td.schema td.gsis v.keyed
        (none-NoClash h r td.items td.gsis) all)
