-- ===== src/Middleware/Transparent.antt =====
-- middleware.go, logging.go, dynagotel/dynagotel.go: what a wrapped backend answers and stores.
use dynago.Prelude.{
  ℕ, ◌≡◌, refl, ap, ◌∙◌, Bool, true, false, List, [], ◌∷◌, Bytes, Option, none, some, map, Result,
  Error, if◌then◌else◌, arith,
}
use dynago.Expr.Floats.{FloatOps}
use dynago.Memdb.Schema.{MemoryBackend}
use dynago.Middleware.Interface.{
  Event, World, Method, Backend, in_memory, with_middleware, read_method, write_method,
  whole_batch_get, whole_batch_write,
}
use dynago.Memdb.Reads.Get.{get_item_request, transact_get_items}
use dynago.Memdb.Reads.Query.{query}
use dynago.Memdb.Reads.Scan.{scan}
use dynago.Memdb.Writes.Single.{put_item, delete_item_request, update_item}
use dynago.Memdb.Writes.Transact.{transact_write_items}
use dynago.Middleware.Observers.{
  after_reading, emit_event, log, logged, logging_middleware, Config, emit_if, record_error,
  begin_span, start_span, end_span, back_in, finish, traced, otel_middleware,
}

-- From worlds with the same store two methods answer alike and leave the same store.
abbrev pub Alike : {In Out : Type 0} → Method In Out → Method In Out → Type 0
Alike {In = In} m n =
    (req : In) (v w : World)
    → v.store ≡ w.store
    → ((m req v).1 ≡ (n req w).1) × ((m req v).0.store ≡ (n req w).0.store)

-- Two backends all of whose methods are alike.
pub record AreAlike (b c : Backend) : Type 0 where
  pub get_item : Alike b.get_item c.get_item
  pub put_item : Alike b.put_item c.put_item
  pub delete_item : Alike b.delete_item c.delete_item
  pub update_item : Alike b.update_item c.update_item
  pub query : Alike b.query c.query
  pub scan : Alike b.scan c.scan
  pub batch_get_item : Alike b.batch_get_item c.batch_get_item
  pub batch_write_item : Alike b.batch_write_item c.batch_write_item
  pub transact_get_items : Alike b.transact_get_items c.transact_get_items
  pub transact_write_items : Alike b.transact_write_items c.transact_write_items

log-store :
    (slow_threshold : ℕ) (operation table : Bytes) (dur : ℕ) (failure : Option Error) (w : World)
    → (log slow_threshold operation table dur failure w).store ≡ w.store
unfolding log emit_event
log-store slow_threshold operation table dur failure w = ground arith

emit_if-store : (b : Bool) (e : Event) (w : World) → (emit_if b e w).store ≡ w.store
unfolding emit_if emit_event
emit_if-store true e w = refl
emit_if-store false e w = refl

ended-store :
    (b : Bool) (ctx : Option ℕ) (failure : Option Error) (w : World)
    → (if b then end_span ctx (record_error failure ctx w) else w).store ≡ w.store
unfolding record_error end_span emit_event
ended-store true none none w = refl
ended-store true none (some e) w = refl
ended-store true (some span) none w = refl
ended-store true (some span) (some e) w = refl
ended-store false ctx failure w = refl

begin_span-store :
    (cfg : Config) (operation : Bytes) (w : World) → (begin_span cfg operation w).store ≡ w.store
unfolding begin_span start_span emit_event
begin_span-store cfg operation w = at cfg.has_tracer
  where
    at : (b : Bool) → (if b then start_span operation w else w).store ≡ w.store
    at true = refl
    at false = refl

finish-store :
    (cfg : Config) (operation table : Bytes) (ctx : Option ℕ) (elapsed : ℕ) (failure : Option Error)
    (w : World)
    → (finish cfg operation table ctx elapsed failure w).store ≡ w.store
unfolding finish
finish-store cfg operation table ctx elapsed failure w =
    emit_if-store cfg.has_latency _ _
    ∙ emit_if-store cfg.has_counter _ _
    ∙ ended-store cfg.has_tracer ctx failure w

logged-Alike :
    {In Out : Type 0} (slow_threshold : ℕ) (operation : Bytes) (table : In → Bytes)
    (m n : Method In Out)
    → Alike m n
    → Alike (logged slow_threshold operation table m) n
unfolding logged after_reading
logged-Alike slow_threshold operation table m n alike req v w e =
    let (same, stored) = alike req (after_reading v) w e in
    (same, log-store slow_threshold operation (table req) _ _ _ ∙ stored)

traced-Alike :
    {In Out : Type 0} (cfg : Config) (operation : Bytes) (table : In → Bytes) (m n : Method In Out)
    → Alike m n
    → Alike (traced cfg operation table m) n
unfolding traced after_reading back_in
traced-Alike cfg operation table m n alike req v w e =
    let (same, stored) =
      alike req (after_reading (begin_span cfg operation v)) w
        (begin_span-store cfg operation v ∙ e) in
    (same, finish-store cfg operation (table req) _ _ _ _ ∙ stored)

-- The middleware of the library.
pub data Layer : Type 0 where
  logging : ℕ → Layer
  tracing : Config → Layer

abbrev pub middleware_of : Layer → Backend → Backend
middleware_of (logging slow_threshold) = logging_middleware slow_threshold
middleware_of (tracing cfg) = otel_middleware cfg

layer-AreAlike : (l : Layer) (b c : Backend) → AreAlike b c → AreAlike (middleware_of l b) c
unfolding logging_middleware otel_middleware
layer-AreAlike (logging slow_threshold) b c alike = record {
  get_item = logged-Alike slow_threshold _ _ b.get_item c.get_item alike.get_item;
  put_item = logged-Alike slow_threshold _ _ b.put_item c.put_item alike.put_item;
  delete_item = logged-Alike slow_threshold _ _ b.delete_item c.delete_item alike.delete_item;
  update_item = logged-Alike slow_threshold _ _ b.update_item c.update_item alike.update_item;
  query = logged-Alike slow_threshold _ _ b.query c.query alike.query;
  scan = logged-Alike slow_threshold _ _ b.scan c.scan alike.scan;
  batch_get_item =
      logged-Alike slow_threshold _ _ b.batch_get_item c.batch_get_item alike.batch_get_item;
  batch_write_item =
      logged-Alike slow_threshold _ _ b.batch_write_item c.batch_write_item alike.batch_write_item;
  transact_get_items =
      logged-Alike slow_threshold _ _ b.transact_get_items c.transact_get_items
        alike.transact_get_items;
  transact_write_items =
      logged-Alike slow_threshold _ _ b.transact_write_items c.transact_write_items
        alike.transact_write_items;
}
layer-AreAlike (tracing cfg) b c alike = record {
  get_item = traced-Alike cfg _ _ b.get_item c.get_item alike.get_item;
  put_item = traced-Alike cfg _ _ b.put_item c.put_item alike.put_item;
  delete_item = traced-Alike cfg _ _ b.delete_item c.delete_item alike.delete_item;
  update_item = traced-Alike cfg _ _ b.update_item c.update_item alike.update_item;
  query = traced-Alike cfg _ _ b.query c.query alike.query;
  scan = traced-Alike cfg _ _ b.scan c.scan alike.scan;
  batch_get_item = traced-Alike cfg _ _ b.batch_get_item c.batch_get_item alike.batch_get_item;
  batch_write_item =
      traced-Alike cfg _ _ b.batch_write_item c.batch_write_item alike.batch_write_item;
  transact_get_items =
      traced-Alike cfg _ _ b.transact_get_items c.transact_get_items alike.transact_get_items;
  transact_write_items =
      traced-Alike cfg _ _ b.transact_write_items c.transact_write_items alike.transact_write_items;
}

read_method-Alike :
    {In Out : Type 0} (f : In → MemoryBackend → Result Out) → Alike (read_method f) (read_method f)
unfolding read_method
read_method-Alike f req v w e = (ap (f req) e, e)

write_method-Alike :
    {In Out : Type 0} (f : In → MemoryBackend → MemoryBackend × Result Out)
    → Alike (write_method f) (write_method f)
unfolding write_method
write_method-Alike f req v w e = (ap (λ m. (f req m).1) e, ap (λ m. (f req m).0) e)

in_memory-AreAlike : (F : FloatOps) → AreAlike (in_memory F) (in_memory F)
unfolding in_memory
in_memory-AreAlike F = record {
  get_item = read_method-Alike get_item_request;
  put_item = write_method-Alike (put_item F);
  delete_item = write_method-Alike (delete_item_request F);
  update_item = write_method-Alike (update_item F);
  query = read_method-Alike (query F);
  scan = read_method-Alike (scan F);
  batch_get_item = read_method-Alike whole_batch_get;
  batch_write_item = write_method-Alike whole_batch_write;
  transact_get_items = read_method-Alike transact_get_items;
  transact_write_items = write_method-Alike (transact_write_items F);
}

stack-AreAlike :
    (layers : List Layer) (b c : Backend)
    → AreAlike b c
    → AreAlike (with_middleware (map middleware_of layers) b) c
unfolding with_middleware
stack-AreAlike [] b c alike = alike
stack-AreAlike (l ∷ layers) b c alike =
    stack-AreAlike layers (middleware_of l b) c (layer-AreAlike l b c alike)

-- Under any stack of logging and tracing middleware, every method of the in-memory backend gives the
-- answer that it gives without them from a world with the same store, and leaves the same store.
pub with_middleware-AreAlike :
    (F : FloatOps) (layers : List Layer)
    → AreAlike (with_middleware (map middleware_of layers) (in_memory F)) (in_memory F)
with_middleware-AreAlike F layers =
    stack-AreAlike layers (in_memory F) (in_memory F) (in_memory-AreAlike F)
