-- ===== src/Memdb/Writes/Transact.antt =====
-- memdb/memdb.go: TransactWriteItems. The first pass checks every condition, the second writes; an
-- error of the second pass leaves what was written before it.
use dynago.Prelude.{
  Bool, true, false, ◌||◌, List, [], ◌∷◌, Bytes, ltb, length, if◌then◌else◌, Result, ok, err,
  validation, tx_cancelled, ◌>>=◌, ◌>>◌,
}
use dynago.Attribute.{Item, no_attrs}
use dynago.Backend.{TransactWriteItem, put, delete, update, condition_check, empty_item}
use dynago.Expr.Floats.{FloatOps}
use dynago.Memdb.Schema.{TableData, MemoryBackend, table}
use dynago.Memdb.Keys.{extract_key}
use dynago.Memdb.Partitions.{get_item}
use dynago.Memdb.Parsing.{Placeholders}
use dynago.Memdb.Conditions.{eval_condition}
use dynago.Memdb.Writes.Single.{
  or_empty, put_stored, delete_stored, start_item, updated_item, on_table,
}

-- txWriteTableName
unfoldable pub tx_write_table_name : TransactWriteItem → Bytes
tx_write_table_name (put p) = p.table_name
tx_write_table_name (delete d) = d.table_name
tx_write_table_name (update u) = u.table_name
tx_write_table_name (condition_check c) = c.table_name
tx_write_table_name empty_item = []

-- The variables that the switch of the first pass sets.
pub record Check : Type 0 where
  pub cond_expr : Bytes
  pub placeholders : Placeholders
  pub key : Item

abbrev pub check_of : TransactWriteItem → Check
check_of (put p) = record {
  cond_expr = p.condition_expression;
  placeholders = p.placeholders;
  key = p.item;
}
check_of (delete d) = record {
  cond_expr = d.condition_expression;
  placeholders = d.placeholders;
  key = d.key;
}
check_of (update u) = record {
  cond_expr = u.condition_expression;
  placeholders = u.placeholders;
  key = u.key;
}
check_of (condition_check c) = record {
  cond_expr = c.condition_expression;
  placeholders = c.placeholders;
  key = c.key;
}
check_of empty_item = record {
  cond_expr = [];
  placeholders = record { names = []; values = no_attrs };
  key = no_attrs;
}

-- Resolving all tables up front: an unknown one ends the transaction.
resolve_tables : List TransactWriteItem → MemoryBackend → Result (Unit {0})
resolve_tables [] m = ok tt
resolve_tables (twi ∷ twis) m =
    let rest = resolve_tables twis m in do td ← table (tx_write_table_name twi) m; rest

-- One round of the first pass: whether the condition holds.
unfoldable pub holds_in : FloatOps → Bytes → Placeholders → Item → TableData → Result Bool
holds_in F [] p key td = ok true
holds_in F (c ∷ text) p key td = do
  (hash, rng) ← extract_key td.schema key
  eval_condition F (c ∷ text) p (or_empty (get_item hash rng td.items))

unfoldable pub condition_holds : FloatOps → TransactWriteItem → MemoryBackend → Result Bool
unfolding holds_in tx_write_table_name
condition_holds F twi m = do
  td ← table (tx_write_table_name twi) m
  holds_in F (check_of twi).cond_expr (check_of twi).placeholders (check_of twi).key td

-- The first pass: for each operation whether its condition failed (its reason has a code).
unfoldable pub first_pass : FloatOps → List TransactWriteItem → MemoryBackend → Result (List Bool)
first_pass F [] m = ok []
first_pass F (twi ∷ twis) m =
    let rest = first_pass F twis m in
    do
      holds ← condition_holds F twi m
      reasons ← rest
      ok ((if holds then false else true) ∷ reasons)

unfoldable pub any_failed : List Bool → Bool
any_failed [] = false
any_failed (failed ∷ reasons) = failed || any_failed reasons

-- One round of the second pass, on the operation's table.
unfoldable pub apply_in : FloatOps → TransactWriteItem → TableData → Result (TableData × Unit {0})
apply_in F (put p) td = do
  (hash, rng) ← extract_key td.schema p.item
  ok (put_stored hash rng (get_item hash rng td.items) p.item td, tt)
apply_in F (delete d) td = do
  (hash, rng) ← extract_key td.schema d.key
  ok (delete_stored hash rng td, tt)
apply_in F (update u) td = do
  (hash, rng) ← extract_key td.schema u.key
  item ←
      updated_item F u.update_expression u.placeholders
        (start_item (get_item hash rng td.items) u.key)
  ok (put_stored hash rng (get_item hash rng td.items) item td, tt)
apply_in F (condition_check c) td = ok (td, tt)
apply_in F empty_item td = ok (td, tt)

-- The second pass.
unfoldable pub second_pass :
    FloatOps → List TransactWriteItem → MemoryBackend → MemoryBackend × Result (Unit {0})
second_pass F [] m = (m, ok tt)
second_pass F (twi ∷ twis) m =
    let (left, outcome) = on_table (tx_write_table_name twi) (apply_in F twi) m in
    elim outcome [ ok _ ↦ second_pass F twis left | err e ↦ (left, err e) ]

unfoldable pub after_checks :
    FloatOps
    → List TransactWriteItem
    → Result (List Bool)
    → MemoryBackend
    → MemoryBackend × Result (Unit {0})
unfolding any_failed
after_checks F twis (err e) m = (m, err e)
after_checks F twis (ok reasons) m =
    if any_failed reasons then (m, err (tx_cancelled reasons)) else second_pass F twis m

-- All that comes before the first write: the tables, then the conditions.
unfoldable pub tx_reasons : FloatOps → List TransactWriteItem → MemoryBackend → Result (List Bool)
unfolding resolve_tables
tx_reasons F twis m = do resolve_tables twis m; first_pass F twis m

-- TransactWriteItems
unfoldable pub transact_write_items :
    FloatOps → List TransactWriteItem → MemoryBackend → MemoryBackend × Result (Unit {0})
unfolding tx_reasons after_checks
transact_write_items F twis m =
    if ltb 100 (length twis)
    then (m, err validation)
    else after_checks F twis (tx_reasons F twis m) m
