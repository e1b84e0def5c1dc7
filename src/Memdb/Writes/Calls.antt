-- ===== src/Memdb/Writes/Calls.antt =====
-- memdb/memdb.go: sequences of calls on a backend.
use mathlib.Core.Path.{subst}
use dynago.Prelude.{
  ◌≡◌, refl, sym, ◌∙◌, Bool, List, [], ◌∷◌, Bytes, some, Assoc, lookup, insert, lookup-insert, ◌≟◌,
  ≟_iff, if_yes, if_no, Bool-cases, Option-cases, Result-cases, inl, inr, ltb, either_way, length,
  Result, ok, err, validation, arith,
}
use dynago.Backend.{
  PutItemRequest, DeleteItemRequest, UpdateItemRequest, WriteRequest, TransactWriteItem, update,
}
use dynago.Expr.Floats.{FloatOps}
use dynago.Memdb.Schema.{TableSchema, TableData, MemoryBackend, table}
use dynago.Memdb.Writes.Single.{put_item, delete_item_request, update_item, on_table}
use dynago.Memdb.Writes.Batch.{
  writes_in, table_writes, batch_tables, total_writes, batch_write_item,
}
use dynago.Memdb.Writes.Transact.{
  apply_in, any_failed, second_pass, after_checks, tx_reasons, transact_write_items,
  tx_write_table_name,
}
use dynago.Memdb.Writes.Consistency.{
  IsGood, KeepsKey, Keeps, put_in-IsGood, delete_in-IsGood, update_in-IsGood, apply_in-IsGood,
  writes_in-IsGood,
}

some_eq {ℓ} : {A : Type ℓ} {x y : A} → some x ≡ some y → x ≡ y
some_eq h = cc

-- A call of the Backend interface that writes.
pub data Call : Type 0 where
  put_call : PutItemRequest → Call
  delete_call : DeleteItemRequest → Call
  update_call : UpdateItemRequest → Call
  batch_call : Assoc (List WriteRequest) → Call
  transact_call : List TransactWriteItem → Call

-- The backend after a call, whatever the call returned.
unfoldable pub perform : FloatOps → Call → MemoryBackend → MemoryBackend
perform F (put_call req) m = (put_item F req m).0
perform F (delete_call req) m = (delete_item_request F req m).0
perform F (update_call req) m = (update_item F req m).0
perform F (batch_call req) m = (batch_write_item req m).0
perform F (transact_call twis) m = (transact_write_items F twis m).0

unfoldable pub run : FloatOps → List Call → MemoryBackend → MemoryBackend
unfolding perform
run F [] m = m
run F (call ∷ calls) m = run F calls (perform F call m)

-- Every table has the schema that it was created with, its items stand at their keys, and its index
-- entries are its items.
pub record IsSoundBackend (schemas : Bytes → TableSchema) (m : MemoryBackend) : Type 0 where
  pub at_name : (name : Bytes) (td : TableData) → lookup name m ≡ some td → IsGood (schemas name) td

module _ (F : FloatOps) (schemas : Bytes → TableSchema) where
  abbrev pub KeepsKeys : List TransactWriteItem → Type 0
  KeepsKeys [] = Unit
  KeepsKeys (twi ∷ twis) =
      ((u : UpdateItemRequest) → twi ≡ update u → KeepsKey F (schemas (tx_write_table_name twi)) u)
      × KeepsKeys twis

  -- Its updates leave key attributes alone.
  abbrev pub IsSafe : Call → Type 0
  IsSafe (update_call u) = KeepsKey F (schemas u.table_name) u
  IsSafe (transact_call twis) = KeepsKeys twis
  IsSafe _ = Unit

  abbrev pub AllSafe : List Call → Type 0
  AllSafe [] = Unit
  AllSafe (call ∷ calls) = IsSafe call × AllSafe calls

module _ (schemas : Bytes → TableSchema) where
  insert-IsSoundBackend :
      (name : Bytes) (td : TableData) (m : MemoryBackend)
      → IsGood (schemas name) td
      → IsSoundBackend schemas m
      → IsSoundBackend schemas (insert name td m)
  insert-IsSoundBackend name td m good v = record {
    at_name = λ n x e. elim (Bool-cases (name ≟ n)) [
      | inl same ↦
          let is_td = some_eq (sym (lookup-insert name n td m ∙ if_yes _ _ _ same) ∙ e) in
          subst (λ k. IsGood (schemas k) x) ((≟_iff name n).0 same)
            (subst (IsGood (schemas name)) is_td good)
      | inr other ↦ v.at_name n x (sym (lookup-insert name n td m ∙ if_no _ _ _ other) ∙ e)
    ];
  }

  on_table-IsSoundBackend {ℓ} :
      {A : Type ℓ} (name : Bytes) (f : TableData → Result (TableData × A)) (m : MemoryBackend)
      → Keeps (schemas name) f
      → IsSoundBackend schemas m
      → IsSoundBackend schemas (on_table name f m).0
  unfolding on_table table
  on_table-IsSoundBackend name f m keeps v = elim (Option-cases (lookup name m)) [
    | inl absent ↦ rw (absent, on_table, table) v
    | inr (td, present) ↦ elim (Result-cases (f td)) [
      | inl ((td', a), done) ↦
          rw (present, on_table, table, done)
            (insert-IsSoundBackend name td' m (keeps td td' a done (v.at_name name td present)) v)
      | inr (x, failed) ↦ rw (present, on_table, table, failed) v
    ]
  ]

  table_writes-IsSoundBackend :
      (name : Bytes) (writes : List WriteRequest) (m : MemoryBackend) (r : Result TableData)
      → ((td : TableData) → r ≡ ok td → IsGood (schemas name) td)
      → IsSoundBackend schemas m
      → IsSoundBackend schemas (table_writes name m r writes).0
  unfolding table_writes
  table_writes-IsSoundBackend name writes m (err e) good v = v
  table_writes-IsSoundBackend name writes m (ok td) good v =
      insert-IsSoundBackend name (writes_in writes td).0 m
        (writes_in-IsGood (schemas name) writes td (good td refl)) v

  table-IsGood :
      (name : Bytes) (m : MemoryBackend)
      → IsSoundBackend schemas m
      → (td : TableData) → table name m ≡ ok td
      → IsGood (schemas name) td
  unfolding table
  table-IsGood name m v td e = v.at_name name td (ground arith)

  batch_tables-IsSoundBackend :
      (req : Assoc (List WriteRequest)) (m : MemoryBackend)
      → IsSoundBackend schemas m
      → IsSoundBackend schemas (batch_tables req m).0
  unfolding batch_tables
  batch_tables-IsSoundBackend [] m v = v
  batch_tables-IsSoundBackend ((name, writes) ∷ rest) m v =
      let written = table_writes name m (table name m) writes in
      let left =
        table_writes-IsSoundBackend name writes m (table name m) (table-IsGood name m v) v in
      elim (Result-cases written.1) [
        | inl (u, done) ↦ rw (done, batch_tables) (batch_tables-IsSoundBackend rest written.0 left)
        | inr (x, failed) ↦ rw (failed, batch_tables) left
      ]

  second_pass-IsSoundBackend :
      (F : FloatOps) (twis : List TransactWriteItem) (m : MemoryBackend)
      → KeepsKeys F schemas twis
      → IsSoundBackend schemas m
      → IsSoundBackend schemas (second_pass F twis m).0
  unfolding second_pass
  second_pass-IsSoundBackend F [] m keeps v = v
  second_pass-IsSoundBackend F (twi ∷ twis) m keeps v =
      let name = tx_write_table_name twi in
      let left =
        on_table-IsSoundBackend name (apply_in F twi) m
          (apply_in-IsGood F (schemas name) twi keeps.0) v in
      elim (Result-cases (on_table name (apply_in F twi) m).1) [
        | inl (u, done) ↦
            rw (done, second_pass)
              (second_pass-IsSoundBackend F twis (on_table name (apply_in F twi) m).0 keeps.1 left)
        | inr (x, failed) ↦ rw (failed, second_pass) left
      ]

  after_checks-IsSoundBackend :
      (F : FloatOps) (twis : List TransactWriteItem) (r : Result (List Bool)) (m : MemoryBackend)
      → KeepsKeys F schemas twis
      → IsSoundBackend schemas m
      → IsSoundBackend schemas (after_checks F twis r m).0
  unfolding after_checks
  after_checks-IsSoundBackend F twis (err e) m keeps v = v
  after_checks-IsSoundBackend F twis (ok reasons) m keeps v =
      elim (Bool-cases (any_failed reasons)) [
        | inl failed ↦ rw (failed, after_checks) v
        | inr passed ↦ rw (passed, after_checks) (second_pass-IsSoundBackend F twis m keeps v)
      ]

module _ (F : FloatOps) (schemas : Bytes → TableSchema) where
  -- One call keeps the backend sound, whether it succeeds, fails, or stops part-way.
  pub perform-IsSoundBackend :
      (call : Call) (m : MemoryBackend)
      → IsSafe F schemas call
      → IsSoundBackend schemas m
      → IsSoundBackend schemas (perform F call m)
  unfolding perform put_item delete_item_request update_item batch_write_item transact_write_items
  perform-IsSoundBackend (put_call req) m safe v =
      on_table-IsSoundBackend schemas req.table_name _ m (put_in-IsGood F _ req) v
  perform-IsSoundBackend (delete_call req) m safe v =
      on_table-IsSoundBackend schemas req.table_name _ m (delete_in-IsGood F _ req) v
  perform-IsSoundBackend (update_call req) m safe v =
      on_table-IsSoundBackend schemas req.table_name _ m (update_in-IsGood F _ req safe) v
  perform-IsSoundBackend (batch_call req) m safe v =
      either_way (λ (r : MemoryBackend × Result (Unit {0})). IsSoundBackend schemas r.0)
        (ltb 25 (total_writes req)) _ _ v (batch_tables-IsSoundBackend schemas req m v)
  perform-IsSoundBackend (transact_call twis) m safe v =
      either_way (λ (r : MemoryBackend × Result (Unit {0})). IsSoundBackend schemas r.0)
        (ltb 100 (length twis)) (m, err validation) (after_checks F twis (tx_reasons F twis m) m) v
        (after_checks-IsSoundBackend schemas F twis (tx_reasons F twis m) m safe v)

  -- From a sound backend, after any sequence of put, delete, update, batch and transaction calls,
  -- each of them succeeding, failing or stopping part-way, every item still stands at the place that
  -- its own key attributes name, and every entry of every index is an item of its table at its index
  -- key, provided that updates leave key attributes alone.
  pub run-IsSoundBackend :
      (calls : List Call) (m : MemoryBackend)
      → AllSafe F schemas calls
      → IsSoundBackend schemas m
      → IsSoundBackend schemas (run F calls m)
  unfolding run
  run-IsSoundBackend [] m safe v = v
  run-IsSoundBackend (call ∷ calls) m safe v =
      run-IsSoundBackend calls (perform F call m) safe.1 (perform-IsSoundBackend call m safe.0 v)
