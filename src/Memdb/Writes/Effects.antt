-- ===== src/Memdb/Writes/Effects.antt =====
-- memdb/memdb.go: PutItem, DeleteItem and UpdateItem against an abstract store, a map from table,
-- hash key and range key to an item.
use dynago.Prelude.{
  ◌≡◌, Bytes, Option, none, some, lookup, insert, lookup-insert, ◌≟◌, ≟_iff, if◌then◌else◌,
  Option-cases, Result-cases, inl, inr, Result, ok, >>=-eq-ok, arith,
}
use dynago.Attribute.{Item}
use dynago.Backend.{PutItemRequest, DeleteItemRequest, UpdateItemRequest}
use dynago.Expr.Floats.{FloatOps}
use dynago.Memdb.Schema.{TableData, MemoryBackend, table}
use dynago.Memdb.Keys.{extract_key}
use dynago.Memdb.Partitions.{get_item, get_item-store_item, get_item-delete_item}
use dynago.Memdb.Gsi.{update_gsis}
use dynago.Memdb.Gsi.Entries.{is_at}
use dynago.Memdb.Writes.Single.{
  check_condition, put_stored, delete_stored, put_in, delete_in, update_in, start_item,
  updated_item, copied, on_table, put_item, delete_item_request, update_item,
}

read_in : Bytes → Bytes → Option TableData → Option Item
read_in h r none = none
read_in h r (some td) = get_item h r td.items

-- The abstract store of a backend.
unfoldable pub read : MemoryBackend → Bytes → Bytes → Bytes → Option Item
unfolding read_in
read m name h r = read_in h r (lookup name m)

-- The store with one place overwritten (by none, to delete).
abbrev pub overwrite :
    Bytes
    → Bytes
    → Bytes
    → Option Item
    → (Bytes → Bytes → Bytes → Option Item)
    → Bytes
    → Bytes
    → Bytes
    → Option Item
overwrite name h r new store n k s =
    if name ≟ n then if is_at (some (h, r)) k s then new else store n k s else store n k s

-- The table that a request names changes at one place; the others do not change.
read-insert :
    (name h r : Bytes) (new : Option Item) (td td' : TableData) (m : MemoryBackend)
    → lookup name m ≡ some td
    → ((k s : Bytes)
        → get_item k s td'.items ≡ (if is_at (some (h, r)) k s then new else get_item k s td.items))
    → (n k s : Bytes) → read (insert name td' m) n k s ≡ overwrite name h r new (read m) n k s
unfolding read
read-insert name h r new td td' m present writes n k s =
    ground (arith, lookup-insert name n td' m, writes k s, ≟_iff name n)

-- What a handler on one table did, if it succeeded.
on_table-eq-ok {ℓ} :
    {A : Type ℓ} (name : Bytes) (f : TableData → Result (TableData × A)) (m m' : MemoryBackend)
    (a : A)
    → on_table name f m ≡ (m', ok a)
    → (td : TableData) × (td' : TableData) × (lookup name m ≡ some td)
      × (f td ≡ ok (td', a))
      × (m' ≡ insert name td' m)
unfolding on_table table
on_table-eq-ok name f m m' a e = elim (Option-cases (lookup name m)) [
  | inl absent ↦ absurd (ground arith)
  | inr (td, present) ↦ elim (Result-cases (f td)) [
    | inl ((td', b), done) ↦ (td, td', present, ground arith, ground arith)
    | inr (x, failed) ↦ absurd (ground arith)
  ]
]

read_present :
    (name h r : Bytes) (m : MemoryBackend) (td : TableData)
    → lookup name m ≡ some td
    → get_item h r td.items ≡ read m name h r
unfolding read
read_present name h r m td present = ground arith

put_stored-reads :
    (h r k s : Bytes) (old : Option Item) (item : Item) (td : TableData)
    → get_item k s (put_stored h r old item td).items
      ≡ (if is_at (some (h, r)) k s then some item else get_item k s td.items)
unfolding put_stored update_gsis
put_stored-reads h r k s old item td = get_item-store_item h r k s item td.items

delete_stored-reads :
    (h r k s : Bytes) (td : TableData)
    → get_item k s (delete_stored h r td).items
      ≡ (if is_at (some (h, r)) k s then none else get_item k s td.items)
unfolding delete_stored update_gsis
delete_stored-reads h r k s td = get_item-delete_item h r k s td.items

pair_eq {ℓ} :
    {A : Type ℓ} {td td' : TableData} {a b : A}
    → ◌≡◌ {A = Result (TableData × A)} (ok (td, a)) (ok (td', b))
    → td ≡ td'
pair_eq h = cc

module _ (F : FloatOps) (m m' : MemoryBackend) where
  -- The store after the table of a request was replaced.
  replaced :
      (name h r : Bytes) (new : Option Item) (td td' after : TableData)
      → lookup name m ≡ some td
      → after ≡ td'
      → m' ≡ insert name td' m
      → ((k s : Bytes)
          → get_item k s after.items
            ≡ (if is_at (some (h, r)) k s then new else get_item k s td.items))
      → (n k s : Bytes) → read m' n k s ≡ overwrite name h r new (read m) n k s
  replaced name h r new td td' after present same is_m' writes n k s =
      rw (is_m', ← same) (read-insert name h r new td after m present writes n k s)

  -- A PutItem that succeeds found its table and the key of its item, and its condition held of what
  -- stood there. Afterwards a read of that place gives the item, and every other read, of this table
  -- or another, gives what it gave before.
  pub put_item-read :
      (req : PutItemRequest)
      → put_item F req m ≡ (m', ok tt)
      → (td : TableData) × (h : Bytes) × (r : Bytes) × (lookup req.table_name m ≡ some td)
        × (extract_key td.schema req.item ≡ ok (h, r))
        × (check_condition F req.condition_expression req.placeholders (read m req.table_name h r)
            ≡ ok tt)
        × ((n k s : Bytes)
            → read m' n k s ≡ overwrite req.table_name h r (some req.item) (read m) n k s)
  unfolding put_item put_in
  put_item-read req e =
      let (td, td', present, done, is_m') =
        on_table-eq-ok req.table_name (put_in F req) m m' tt e in
      let ((h, r), key, e₁) = >>=-eq-ok (extract_key td.schema req.item) _ done in
      let (u, checked, e₂) =
        >>=-eq-ok
          (check_condition F req.condition_expression req.placeholders (get_item h r td.items)) _
          e₁ in
      (
        td,
        h,
        r,
        present,
        key,
        rw (← read_present req.table_name h r m td present) checked,
        replaced req.table_name h r (some req.item) td td' _ present (pair_eq e₂) is_m'
            (λ k s. put_stored-reads h r k s (get_item h r td.items) req.item td),
      )

  -- A DeleteItem that succeeds found its table and the key, and its condition held of what stood
  -- there. Afterwards a read of that place gives nothing, and every other read what it gave before.
  pub delete_item_request-read :
      (req : DeleteItemRequest)
      → delete_item_request F req m ≡ (m', ok tt)
      → (td : TableData) × (h : Bytes) × (r : Bytes) × (lookup req.table_name m ≡ some td)
        × (extract_key td.schema req.key ≡ ok (h, r))
        × (check_condition F req.condition_expression req.placeholders (read m req.table_name h r)
            ≡ ok tt)
        × ((n k s : Bytes) → read m' n k s ≡ overwrite req.table_name h r none (read m) n k s)
  unfolding delete_item_request delete_in
  delete_item_request-read req e =
      let (td, td', present, done, is_m') =
        on_table-eq-ok req.table_name (delete_in F req) m m' tt e in
      let ((h, r), key, e₁) = >>=-eq-ok (extract_key td.schema req.key) _ done in
      let (u, checked, e₂) =
        >>=-eq-ok
          (check_condition F req.condition_expression req.placeholders (get_item h r td.items)) _
          e₁ in
      (
        td,
        h,
        r,
        present,
        key,
        rw (← read_present req.table_name h r m td present) checked,
        replaced req.table_name h r none td td' _ present (pair_eq e₂) is_m'
            (λ k s. delete_stored-reads h r k s td),
      )

  -- An UpdateItem that succeeds found its table and the key, its condition held of what stood there,
  -- and its update expression made an item of what stood there, or of the key alone if nothing did.
  -- Afterwards a read of that place gives this item, and every other read what it gave before.
  pub update_item-read :
      (req : UpdateItemRequest) (attributes : Option Item)
      → update_item F req m ≡ (m', ok attributes)
      → (td : TableData) × (h : Bytes) × (r : Bytes) × (item : Item) × (lookup req.table_name m
          ≡ some td)
        × (extract_key td.schema req.key ≡ ok (h, r))
        × (check_condition F req.condition_expression req.placeholders (read m req.table_name h r)
            ≡ ok tt)
        × (updated_item F req.update_expression req.placeholders
              (start_item (read m req.table_name h r) req.key)
            ≡ ok item)
        × ((n k s : Bytes)
            → read m' n k s ≡ overwrite req.table_name h r (some item) (read m) n k s)
  unfolding update_item update_in
  update_item-read req attributes e =
      let (td, td', present, done, is_m') =
        on_table-eq-ok req.table_name (update_in F req) m m' attributes e in
      let ((h, r), key, e₁) = >>=-eq-ok (extract_key td.schema req.key) _ done in
      let (u, checked, e₂) =
        >>=-eq-ok
          (check_condition F req.condition_expression req.placeholders (get_item h r td.items)) _
          e₁ in
      let (item, changed, e₃) =
        >>=-eq-ok
          (updated_item F req.update_expression req.placeholders
            (start_item (get_item h r td.items) req.key))
          _ e₂ in
      (
        td,
        h,
        r,
        item,
        present,
        key,
        rw (← read_present req.table_name h r m td present) checked,
        rw (← read_present req.table_name h r m td present) changed,
        replaced req.table_name h r (some item) td td' _ present (pair_eq e₃) is_m'
            (λ k s. put_stored-reads h r k s (copied (get_item h r td.items)) item td),
      )
