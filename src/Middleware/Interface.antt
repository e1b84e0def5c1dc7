-- ===== src/Middleware/Interface.antt =====
-- backend.go: the Backend interface, with the in-memory backend as one of its implementations, and
-- middleware.go. A backend works on a world: what it stores, and what wrappers read and write.
use dynago.Prelude.{ℕ, List, [], ◌∷◌, Bytes, Assoc, Option, Result, ok, Error, ◌>>=◌}
use dynago.Attribute.{Item}
use dynago.Backend.{
  GetItemRequest, PutItemRequest, DeleteItemRequest, UpdateItemRequest, QueryRequest, ScanRequest,
  PageResponse, KeysAndProjection, WriteRequest, TransactWriteItem,
}
use dynago.Expr.Floats.{FloatOps}
use dynago.Memdb.Schema.{MemoryBackend}
use dynago.Memdb.Reads.Get.{get_item_request, batch_get_item, transact_get_items}
use dynago.Memdb.Reads.Query.{query}
use dynago.Memdb.Reads.Scan.{scan}
use dynago.Memdb.Writes.Batch.{batch_write_item}
use dynago.Memdb.Writes.Single.{put_item, delete_item_request, update_item}
use dynago.Memdb.Writes.Transact.{transact_write_items}

-- The levels of slog that logging.go uses.
pub data Level : Type 0 where
  debug warn : Level

-- What a wrapper leaves behind: a line of the log, with the operation, the table, the duration and
-- the error; or a call of OpenTelemetry. A span has a number of its own.
pub data Event : Type 0 where
  log_line : Level → Bytes → Bytes → ℕ → Option Error → Event
  span_start : ℕ → Bytes → Event
  span_error span_end : ℕ → Event
  counted : Bytes → Bytes → Event
  latency : Bytes → Bytes → ℕ → Event

-- What a backend stores, the readings of time.Now to come, in nanoseconds, the events so far, the
-- last one first, the number of the next span, and the span in the context of the call that runs.
pub record World : Type 0 where
  pub store : MemoryBackend
  pub readings : List ℕ
  pub events : List Event
  pub next_span : ℕ
  pub context : Option ℕ

-- A method of the interface: a request, and the world before and after.
abbrev pub Method : Type 0 → Type 0 → Type 0
Method In Out = In → World → World × Result Out

-- Backend. A write returns nothing; a batch returns what it left unprocessed.
pub record Backend : Type 0 where
  pub get_item : Method GetItemRequest (Option Item)
  pub put_item : Method PutItemRequest (Unit {0})
  pub delete_item : Method DeleteItemRequest (Unit {0})
  pub update_item : Method UpdateItemRequest (Option Item)
  pub query : Method QueryRequest PageResponse
  pub scan : Method ScanRequest PageResponse
  pub batch_get_item :
      Method (Assoc KeysAndProjection) (Assoc (List Item) × Assoc KeysAndProjection)
  pub batch_write_item : Method (Assoc (List WriteRequest)) (Assoc (List WriteRequest))
  pub transact_get_items : Method (List GetItemRequest) (List (Option Item))
  pub transact_write_items : Method (List TransactWriteItem) (Unit {0})

unfoldable pub read_method : {In Out : Type 0} → (In → MemoryBackend → Result Out) → Method In Out
read_method f req w = (w, f req w.store)

unfoldable pub write_method :
    {In Out : Type 0} → (In → MemoryBackend → MemoryBackend × Result Out) → Method In Out
write_method f req w = (record w { store = (f req w.store).0 }, (f req w.store).1)

-- The in-memory backend leaves nothing unprocessed.
unfoldable pub whole_batch_get :
    Assoc KeysAndProjection → MemoryBackend → Result (Assoc (List Item) × Assoc KeysAndProjection)
unfolding batch_get_item
whole_batch_get req m = batch_get_item req m >>= λ found. ok (found, [])

unfoldable pub whole_batch_write :
    Assoc (List WriteRequest) → MemoryBackend → MemoryBackend × Result (Assoc (List WriteRequest))
unfolding batch_write_item
whole_batch_write req m = ((batch_write_item req m).0, (batch_write_item req m).1 >>= λ done. ok [])

-- memdb.MemoryBackend as a Backend
unfoldable pub in_memory : FloatOps → Backend
unfolding read_method write_method whole_batch_get whole_batch_write
in_memory F = record {
  get_item = read_method get_item_request;
  put_item = write_method (put_item F);
  delete_item = write_method (delete_item_request F);
  update_item = write_method (update_item F);
  query = read_method (query F);
  scan = read_method (scan F);
  batch_get_item = read_method whole_batch_get;
  batch_write_item = write_method whole_batch_write;
  transact_get_items = read_method transact_get_items;
  transact_write_items = write_method (transact_write_items F);
}

-- WithMiddleware: the last one is the outermost.
unfoldable pub with_middleware : List (Backend → Backend) → Backend → Backend
with_middleware [] b = b
with_middleware (mw ∷ mws) b = with_middleware mws (mw b)
