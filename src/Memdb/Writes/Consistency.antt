-- ===== src/Memdb/Writes/Consistency.antt =====
-- memdb/memdb.go: what PutItem, DeleteItem, UpdateItem, a batch and a transaction do to one table
-- and its indexes.
use dynago.Prelude.{
  ◌≡◌, refl, sym, ◌∙◌, List, [], ◌∷◌, Bytes, Option-cases, inl, inr, Result-cases, Result, ok,
  >>=-eq-ok,
}
use mathlib.Core.Path.{subst}
use dynago.Attribute.{Item, deep_copy_item_lem}
use dynago.Backend.{
  PutItemRequest, DeleteItemRequest, UpdateItemRequest, WriteRequest, put_request, delete_request,
  empty_request, TransactWriteItem, put, delete, update, condition_check, empty_item,
}
use dynago.Expr.Floats.{FloatOps}
use dynago.Memdb.Schema.{TableSchema, TableData}
use dynago.Memdb.Keys.{extract_key}
use dynago.Memdb.Partitions.{get_item}
use dynago.Memdb.Gsi.{update_gsis}
use dynago.Memdb.Writes.Single.{
  check_condition, put_stored, delete_stored, put_in, delete_in, update_in, start_item,
  updated_item, copied_lem,
}
use dynago.Memdb.Writes.Batch.{write_in, writes_in}
use dynago.Memdb.Writes.Transact.{apply_in}
use dynago.Memdb.Writes.Stored.{IsSoundTable, put_stored-IsSoundTable, delete_stored-IsSoundTable}

-- A sound table of a given schema.
pub record IsGood (schema : TableSchema) (td : TableData) : Type 0 where
  pub has_schema : td.schema ≡ schema
  pub sound : IsSoundTable td

-- An update that leaves the key attributes of every item alone.
abbrev pub KeepsKey : FloatOps → TableSchema → UpdateItemRequest → Type 0
KeepsKey F schema u =
    (old new : Item)
    → updated_item F u.update_expression u.placeholders old ≡ ok new
    → extract_key schema new ≡ extract_key schema old

module _ (h r : Bytes) (schema : TableSchema) (td : TableData) (good : IsGood schema td) where
  put_stored-IsGood :
      (item : Item)
      → extract_key td.schema item ≡ ok (h, r)
      → IsGood schema (put_stored h r (get_item h r td.items) item td)
  unfolding update_gsis
  put_stored-IsGood item key = record {
    has_schema = unfold put_stored in good.has_schema;
    sound = put_stored-IsSoundTable h r td item key good.sound;
  }

  delete_stored-IsGood : IsGood schema (delete_stored h r td)
  unfolding update_gsis
  delete_stored-IsGood = record {
    has_schema = unfold delete_stored in good.has_schema;
    sound = delete_stored-IsSoundTable h r td good.sound;
  }

-- A step on a table keeps it good when it succeeds.
abbrev pub Keeps {ℓ} : {A : Type ℓ} → TableSchema → (TableData → Result (TableData × A)) → Type ℓ
Keeps {A} schema f =
    (td td' : TableData) (a : A) → f td ≡ ok (td', a) → IsGood schema td → IsGood schema td'

module _ (F : FloatOps) (schema : TableSchema) where
  pub put_in-IsGood : (req : PutItemRequest) → Keeps schema (put_in F req)
  unfolding put_in
  put_in-IsGood req td td' a e good =
      let (k, key, e₁) = >>=-eq-ok (extract_key td.schema req.item) _ e in
      let (u, checked, e₂) =
        >>=-eq-ok
          (check_condition F req.condition_expression req.placeholders (get_item k.0 k.1 td.items))
          _ e₁ in
      subst (IsGood schema) (cc e₂) (put_stored-IsGood k.0 k.1 schema td good req.item key)

  pub delete_in-IsGood : (req : DeleteItemRequest) → Keeps schema (delete_in F req)
  unfolding delete_in
  delete_in-IsGood req td td' a e good =
      let (k, key, e₁) = >>=-eq-ok (extract_key td.schema req.key) _ e in
      let (u, checked, e₂) =
        >>=-eq-ok
          (check_condition F req.condition_expression req.placeholders (get_item k.0 k.1 td.items))
          _ e₁ in
      subst (IsGood schema) (cc e₂) (delete_stored-IsGood k.0 k.1 schema td good)

  -- The item that an update starts from has the key of the request.
  start_item-key :
      (td : TableData) (key : Item) (h r : Bytes)
      → IsSoundTable td
      → extract_key td.schema key ≡ ok (h, r)
      → extract_key td.schema (start_item (get_item h r td.items) key) ≡ ok (h, r)
  unfolding start_item
  start_item-key td key h r v e = elim (Option-cases (get_item h r td.items)) [
    | inl absent ↦ rw (absent, start_item, deep_copy_item_lem) e
    | inr (item, present) ↦
        rw (present, start_item, deep_copy_item_lem) (v.keyed.at_place h r item present)
  ]

  pub update_in-IsGood :
      (req : UpdateItemRequest) → KeepsKey F schema req → Keeps schema (update_in F req)
  unfolding update_in
  update_in-IsGood req keeps td td' a e good =
      let (k, key, e₁) = >>=-eq-ok (extract_key td.schema req.key) _ e in
      let (u, checked, e₂) =
        >>=-eq-ok
          (check_condition F req.condition_expression req.placeholders (get_item k.0 k.1 td.items))
          _ e₁ in
      let (item, changed, e₃) =
        >>=-eq-ok
          (updated_item F req.update_expression req.placeholders
            (start_item (get_item k.0 k.1 td.items) req.key))
          _ e₂ in
      let same : KeepsKey F td.schema req =
        subst (λ s. KeepsKey F s req) (sym good.has_schema) keeps in
      subst (IsGood schema) (cc (e₃, copied_lem (get_item k.0 k.1 td.items))) (
        put_stored-IsGood k.0 k.1 schema td good item
          (same _ item changed ∙ start_item-key td req.key k.0 k.1 good.sound key))

  pub apply_in-IsGood :
      (twi : TransactWriteItem)
      → ((u : UpdateItemRequest) → twi ≡ update u → KeepsKey F schema u)
      → Keeps schema (apply_in F twi)
  unfolding apply_in
  apply_in-IsGood (put p) keeps td td' a e good =
      let (k, key, e₁) = >>=-eq-ok (extract_key td.schema p.item) _ e in
      subst (IsGood schema) (cc e₁) (put_stored-IsGood k.0 k.1 schema td good p.item key)
  apply_in-IsGood (delete d) keeps td td' a e good =
      let (k, key, e₁) = >>=-eq-ok (extract_key td.schema d.key) _ e in
      subst (IsGood schema) (cc e₁) (delete_stored-IsGood k.0 k.1 schema td good)
  apply_in-IsGood (update req) keeps td td' a e good =
      let (k, key, e₁) = >>=-eq-ok (extract_key td.schema req.key) _ e in
      let (item, changed, e₃) =
        >>=-eq-ok
          (updated_item F req.update_expression req.placeholders
            (start_item (get_item k.0 k.1 td.items) req.key))
          _ e₁ in
      let same : KeepsKey F td.schema req =
        subst (λ s. KeepsKey F s req) (sym good.has_schema) (keeps req refl) in
      subst (IsGood schema) (cc e₃) (
        put_stored-IsGood k.0 k.1 schema td good item
          (same _ item changed ∙ start_item-key td req.key k.0 k.1 good.sound key))
  apply_in-IsGood (condition_check c) keeps td td' a e good = subst (IsGood schema) (cc e) good
  apply_in-IsGood empty_item keeps td td' a e good = subst (IsGood schema) (cc e) good

module _ (schema : TableSchema) where
  write_in-IsGood :
      (wr : WriteRequest) (td td' : TableData)
      → write_in wr td ≡ ok td'
      → IsGood schema td
      → IsGood schema td'
  unfolding write_in
  write_in-IsGood (put_request item) td td' e good =
      let (k, key, e₁) = >>=-eq-ok (extract_key td.schema item) _ e in
      subst (IsGood schema) (cc e₁) (put_stored-IsGood k.0 k.1 schema td good item key)
  write_in-IsGood (delete_request key) td td' e good =
      let (k, found, e₁) = >>=-eq-ok (extract_key td.schema key) _ e in
      subst (IsGood schema) (cc e₁) (delete_stored-IsGood k.0 k.1 schema td good)
  write_in-IsGood empty_request td td' e good = subst (IsGood schema) (cc e) good

  -- The inner loop of a batch, wherever it stops.
  pub writes_in-IsGood :
      (writes : List WriteRequest) (td : TableData)
      → IsGood schema td
      → IsGood schema (writes_in writes td).0
  unfolding writes_in
  writes_in-IsGood [] td good = good
  writes_in-IsGood (wr ∷ writes) td good = elim (Result-cases (write_in wr td)) [
    | inl (next, e) ↦
        rw (e, writes_in) (writes_in-IsGood writes next (write_in-IsGood wr td next e good))
    | inr (x, e) ↦ rw (e, writes_in) good
  ]
