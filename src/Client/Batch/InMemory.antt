-- ===== src/Client/Batch/InMemory.antt =====
-- batch.go on memdb/memdb.go: what a batch of the client does to the in-memory backend, which never
-- leaves an item unprocessed.
use dynago.Prelude.{
  ℕ, suc, ◌+◌, ◌≤◌, ◌≡◌, refl, ap, ◌∙◌, false, List, [], ◌∷◌, ◌++◌, Bytes, Assoc, lookup, insert,
  lookup-insert, ◌≟◌, ≟_iff, length, length-append, ltb, map, inl, inr, Result-cases, Result, ok,
  err, arith,
}
use dynago.Backend.{WriteRequest}
use dynago.Memdb.Schema.{TableData, MemoryBackend, table}
use dynago.Memdb.Writes.Batch.{
  write_in, writes_in, table_writes, batch_tables, total_writes, batch_write_item,
}
use dynago.Client.Batch.Chunks.{
  chunk_requests, chunk_requests_lem, concat, AllWithin, max_batch_write_items,
}
use dynago.Client.Batch.Retries.{BatchWriter, Context, send_write_from, send_batch_write}
use dynago.Client.Batch.Writes.{
  ErrGroup, Progress, chunk_context, report, sent, chunk_task, start, execute_batch_write,
}

unfoldable pub nothing_left :
    MemoryBackend × Result (Unit {0}) → MemoryBackend × Result (Assoc (List WriteRequest))
nothing_left (m, err e) = (m, err e)
nothing_left (m, ok u) = (m, ok [])

-- The in-memory backend, for batches.
abbrev pub memdb_writer : BatchWriter MemoryBackend
memdb_writer = record { batch_write = λ request m. nothing_left (batch_write_item request m) }

writes_in-append :
    (xs ys : List WriteRequest) (td end : TableData)
    → writes_in (xs ++ ys) td ≡ (end, ok tt)
    → (mid : TableData) × ((writes_in xs td ≡ (mid, ok tt)) × (writes_in ys mid ≡ (end, ok tt)))
unfolding writes_in
writes_in-append [] ys td end e = (td, (refl, e))
writes_in-append (x ∷ xs) ys td end e = elim (Result-cases (write_in x td)) [
  | inr (er, failed) ↦ absurd (ground (arith, e, failed))
  | inl (next, fine) ↦
      let (mid, (front, back)) = writes_in-append xs ys next end (ground (arith, e, fine)) in
      (mid, (ground (arith, fine, front), back))
]

table-insert :
    (name : Bytes) (td : TableData) (m : MemoryBackend) → table name (insert name td m) ≡ ok td
unfolding table
table-insert name td m =
    let (there, back) = ≟_iff name name in ground (arith, lookup-insert name name td m, back refl)

-- A call of the in-memory backend on one table.
one_call :
    (name : Bytes) (chunk : List WriteRequest) (m : MemoryBackend) (td end : TableData)
    → length chunk ≤ max_batch_write_items
    → table name m ≡ ok td
    → writes_in chunk td ≡ (end, ok tt)
    → batch_write_item ((name, chunk) ∷ []) m ≡ (insert name end m, ok tt)
unfolding batch_write_item batch_tables table_writes total_writes
one_call name chunk m td end small there written =
    let fits : ltb 25 (length chunk + 0) ≡ false = ground (arith, small) in
    let outcome : table_writes name m (table name m) chunk ≡ (insert name end m, ok tt) =
      ap (λ r. table_writes name m r chunk) there
      ∙ ap (λ (r : TableData × Result (Unit {0})). (insert name r.0 m, r.1)) written in
    ground (arith, fits, ap (λ r. r.0) outcome, ap (λ r. r.1) outcome)

one_round :
    {S : Type 0} (B : BatchWriter S) (name : Bytes) (done : Context) (fuel : ℕ)
    (pending : List WriteRequest) (s left : S)
    → B.batch_write ((name, pending) ∷ []) s ≡ (left, ok [])
    → send_write_from B name done (suc fuel) 0 pending s ≡ (left, ok tt)
unfolding send_write_from lookup
one_round B name done fuel pending s left e = ground (arith, ap (λ r. r.0) e, ap (λ r. r.1) e)

module _ (name : Bytes) (done : Context) where
  -- One call writes a chunk of at most 25 requests.
  chunk_written :
      (chunk : List WriteRequest) (m : MemoryBackend) (td end : TableData)
      → length chunk ≤ max_batch_write_items
      → table name m ≡ ok td
      → writes_in chunk td ≡ (end, ok tt)
      → send_batch_write memdb_writer name done chunk m ≡ (insert name end m, ok tt)
  unfolding send_batch_write nothing_left
  chunk_written chunk m td end small there written =
      one_round memdb_writer name done 5 chunk m (insert name end m)
        (ap nothing_left (one_call name chunk m td end small there written))

module _ (name : Bytes) (done : Context) (total : ℕ) where
  -- The task of such a chunk.
  task_written :
      (chunk : List WriteRequest) (t : Progress MemoryBackend) (td end : TableData)
      → length chunk ≤ max_batch_write_items
      → table name t.backend ≡ ok td
      → writes_in chunk td ≡ (end, ok tt)
      → ((chunk_task memdb_writer name done total chunk false t).1 ≡ ok tt)
        × (((chunk_task memdb_writer name done total chunk false t).0.backend
              ≡ insert name end t.backend)
            × ((chunk_task memdb_writer name done total chunk false t).0.completed
                ≡ t.completed + length chunk))
  unfolding chunk_task report sent
  task_written chunk t td end small there written =
      let fine =
        chunk_written name (chunk_context done false) chunk t.backend td end small there written in
      let whole =
        ap
          (λ (r : MemoryBackend × Result (Unit {0})).
            report (length chunk) total (record t { backend = r.0 }, r.1))
          fine in
      (ap (λ r. r.1) whole, (ap (λ r. r.0.backend) whole, ap (λ r. r.0.completed) whole))

  -- The other tables.
  SameElsewhere : MemoryBackend → MemoryBackend → Type 0
  SameElsewhere m left =
      (other : Bytes) → (name ≟ other) ≡ false → lookup other left ≡ lookup other m

  module _ (G : ErrGroup (Progress MemoryBackend)) where
    tasks_written :
        (chunks : List (List WriteRequest)) (t : Progress MemoryBackend) (td end : TableData)
        → AllWithin max_batch_write_items chunks
        → table name t.backend ≡ ok td
        → writes_in (concat chunks) td ≡ (end, ok tt)
        → (last : Progress MemoryBackend) × ((G.wait
                (map (chunk_task memdb_writer name done total) chunks)
                t
              ≡ (last, ok tt))
            × ((table name last.backend ≡ ok end)
                × ((last.completed ≡ t.completed + length (concat chunks))
                    × SameElsewhere t.backend last.backend)))
    unfolding concat writes_in SameElsewhere
    tasks_written [] t td end small there written =
        let same : td ≡ end = ap (λ r. r.0) written in
        (t, (G.wait-nil t, (there ∙ ap ok same, (omega arith, λ other differs. refl))))
    tasks_written (c ∷ chunks) t td end small there written =
        let (mid, (first, rest)) = writes_in-append c (concat chunks) td end written in
        let f = chunk_task memdb_writer name done total c in
        let (fine, (left, counted)) = task_written c t td mid small.1 there first in
        let stands = ap (table name) left ∙ table-insert name mid t.backend in
        let (last, (waited, (at_end, (count, others)))) =
          tasks_written chunks (f false t).0 mid end small.2 stands rest in
        (
          last,
          (
            G.wait-ok f (map (chunk_task memdb_writer name done total) chunks) t fine ∙ waited,
            (
              at_end,
              (
                omega (arith, count, counted, length-append c (concat chunks)),
                λ other differs.
                    others other differs
                    ∙ ap (lookup other) left
                    ∙ ground (arith, lookup-insert name other mid t.backend, differs),
              ),
            ),
          ),
        )

-- A batch of the client on a table of the in-memory backend does what one list of writes on that
-- table does, if that list can be written: it succeeds, counts every request, leaves the table
-- as the list does and the other tables as they were.
pub execute_batch_write-writes_in :
    (G : ErrGroup (Progress MemoryBackend)) (name : Bytes) (done : Context)
    (requests : List WriteRequest) (m : MemoryBackend) (td end : TableData)
    → table name m ≡ ok td
    → writes_in requests td ≡ (end, ok tt)
    → (last : Progress MemoryBackend) × ((execute_batch_write memdb_writer G name done requests m
          ≡ (last, ok tt))
        × ((table name last.backend ≡ ok end)
            × ((last.completed ≡ length requests)
                × ((other : Bytes)
                    → (name ≟ other) ≡ false
                    → lookup other last.backend ≡ lookup other m))))
unfolding execute_batch_write SameElsewhere
execute_batch_write-writes_in G name done requests m td end there written =
    let (all, within, few) = chunk_requests_lem requests max_batch_write_items (omega arith) in
    let (last, (waited, (at_end, (count, others)))) =
      tasks_written name done (length requests) G (chunk_requests requests max_batch_write_items)
        (start memdb_writer G name done m) td end within there
        (ap (λ l. writes_in l td) all ∙ written) in
    (last, (waited, (at_end, (omega (arith, count, ap length all), others))))
