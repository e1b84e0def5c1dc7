-- ===== src/Memdb/Writes/Batch.antt =====
-- memdb/memdb.go: BatchWriteItem. An error ends the batch and leaves what was written before it.
use dynago.Prelude.{
  ℕ, ◌+◌, List, [], ◌∷◌, Bytes, Assoc, insert, ltb, length, if◌then◌else◌, Result, ok, err,
  validation, ◌>>=◌,
}
use dynago.Backend.{WriteRequest, put_request, delete_request, empty_request}
use dynago.Memdb.Schema.{TableData, MemoryBackend, table}
use dynago.Memdb.Keys.{extract_key}
use dynago.Memdb.Partitions.{get_item}
use dynago.Memdb.Writes.Single.{put_stored, delete_stored}

-- One write of the inner loop.
unfoldable pub write_in : WriteRequest → TableData → Result TableData
write_in (put_request item) td = do
  (hash, rng) ← extract_key td.schema item
  ok (put_stored hash rng (get_item hash rng td.items) item td)
write_in (delete_request key) td = do
  (hash, rng) ← extract_key td.schema key
  ok (delete_stored hash rng td)
write_in empty_request td = ok td

-- The inner loop: the table as it was left, and whether the loop came to its end.
unfoldable pub writes_in : List WriteRequest → TableData → TableData × Result (Unit {0})
unfolding write_in
writes_in [] td = (td, ok tt)
writes_in (wr ∷ writes) td = elim (write_in wr td) [
  | ok next ↦ writes_in writes next
  | err e ↦ (td, err e)
]

unfoldable pub table_writes :
    Bytes → MemoryBackend → Result TableData → List WriteRequest → MemoryBackend × Result (Unit {0})
unfolding writes_in
table_writes name m (err e) writes = (m, err e)
table_writes name m (ok td) writes =
    let (left, outcome) = writes_in writes td in (insert name left m, outcome)

-- The outer loop, in the order that the map's iteration takes.
unfoldable pub batch_tables :
    Assoc (List WriteRequest) → MemoryBackend → MemoryBackend × Result (Unit {0})
batch_tables [] m = (m, ok tt)
batch_tables ((name, writes) ∷ rest) m =
    let (left, outcome) = table_writes name m (table name m) writes in
    elim outcome [ ok _ ↦ batch_tables rest left | err e ↦ (left, err e) ]

unfoldable pub total_writes : Assoc (List WriteRequest) → ℕ
total_writes [] = 0
total_writes ((name, writes) ∷ rest) = length writes + total_writes rest

-- BatchWriteItem
unfoldable pub batch_write_item :
    Assoc (List WriteRequest) → MemoryBackend → MemoryBackend × Result (Unit {0})
unfolding batch_tables table_writes total_writes
batch_write_item req m =
    if ltb 25 (total_writes req) then (m, err validation) else batch_tables req m
