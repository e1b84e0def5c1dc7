-- ===== src/Middleware/Observers.antt =====
-- logging.go and dynagotel/dynagotel.go. time.Now, the logger and OpenTelemetry are part of the world.
use dynago.Prelude.{
  ℕ, suc, ◌-◌, Bool, ◌&&◌, [], ◌∷◌, Bytes, bytes, Option, none, some, Result, ok, err, Error, ltb,
  leb, if◌then◌else◌,
}
use Prim.Native.Nat.{◌/◌}
use dynago.Middleware.Interface.{
  debug, warn, Event, log_line, span_start, span_error, span_end, counted, latency, World, Method,
  Backend,
}

-- time.Now
unfoldable pub now : World → ℕ
now w = elim w.readings [ [] ↦ 0 | t ∷ ts ↦ t ]

unfoldable pub after_reading : World → World
after_reading w = record w { readings = elim w.readings [ [] ↦ [] | t ∷ ts ↦ ts ] }

unfoldable pub emit_event : Event → World → World
emit_event e w = record w { events = e ∷ w.events }

-- The error of a call, or nil.
unfoldable pub error_of : {A : Type 0} → Result A → Option Error
error_of (ok x) = none
error_of (err e) = some e

-- loggingBackend.log, with the slow threshold of its configuration
unfoldable pub log : ℕ → Bytes → Bytes → ℕ → Option Error → World → World
unfolding emit_event
log slow_threshold operation table dur failure w =
    let noted = emit_event (log_line debug operation table dur failure) w in
    if ltb 0 slow_threshold && leb slow_threshold dur
    then emit_event (log_line warn operation table dur failure) noted
    else noted

-- A method of loggingBackend, with the name of the operation and of the table it logs.
unfoldable pub logged : {In Out : Type 0} → ℕ → Bytes → (In → Bytes) → Method In Out → Method In Out
unfolding now after_reading error_of log
logged slow_threshold operation table call req w =
    let start = now w in
    let (done, resp) = call req (after_reading w) in
    (
      log slow_threshold operation (table req) (now done - start) (error_of resp)
          (after_reading done),
      resp,
    )

-- LoggingMiddleware
unfoldable pub logging_middleware : ℕ → Backend → Backend
unfolding logged
logging_middleware slow_threshold inner = record {
  get_item = logged slow_threshold (bytes "GetItem") (λ req. req.table_name) inner.get_item;
  put_item = logged slow_threshold (bytes "PutItem") (λ req. req.table_name) inner.put_item;
  delete_item =
      logged slow_threshold (bytes "DeleteItem") (λ req. req.table_name) inner.delete_item;
  update_item =
      logged slow_threshold (bytes "UpdateItem") (λ req. req.table_name) inner.update_item;
  query = logged slow_threshold (bytes "Query") (λ req. req.table_name) inner.query;
  scan = logged slow_threshold (bytes "Scan") (λ req. req.table_name) inner.scan;
  batch_get_item = logged slow_threshold (bytes "BatchGetItem") (λ req. []) inner.batch_get_item;
  batch_write_item =
      logged slow_threshold (bytes "BatchWriteItem") (λ req. []) inner.batch_write_item;
  transact_get_items =
      logged slow_threshold (bytes "TransactGetItems") (λ req. []) inner.transact_get_items;
  transact_write_items =
      logged slow_threshold (bytes "TransactWriteItems") (λ req. []) inner.transact_write_items;
}

-- config of dynagotel: which of the tracer and the two instruments are not nil
pub record Config : Type 0 where
  pub has_tracer : Bool
  pub has_counter : Bool
  pub has_latency : Bool

unfoldable pub emit_if : Bool → Event → World → World
emit_if b e w = if b then emit_event e w else w

-- RecordError on the span of a context; without one, on a span that does nothing
unfoldable pub record_error : Option Error → Option ℕ → World → World
unfolding emit_event
record_error none span w = w
record_error (some e) none w = w
record_error (some e) (some span) w = emit_event (span_error span) w

-- End on the span of a context
unfoldable pub end_span : Option ℕ → World → World
unfolding emit_event
end_span none w = w
end_span (some span) w = emit_event (span_end span) w

-- tracer.Start: a new span, in the context of what follows
unfoldable pub start_span : Bytes → World → World
unfolding emit_event
start_span operation w = record (emit_event (span_start w.next_span operation) w) {
  next_span = suc w.next_span;
  context = some w.next_span;
}

-- The part of instrument before the call.
unfoldable pub begin_span : Config → Bytes → World → World
unfolding start_span
begin_span cfg operation w = if cfg.has_tracer then start_span operation w else w

-- The function that instrument returns, with the context that it returns.
unfoldable pub finish : Config → Bytes → Bytes → Option ℕ → ℕ → Option Error → World → World
unfolding emit_if emit_event record_error end_span
finish cfg operation table ctx elapsed failure w =
    let traced = if cfg.has_tracer then end_span ctx (record_error failure ctx w) else w in
    emit_if cfg.has_latency (latency operation table elapsed)
      (emit_if cfg.has_counter (counted operation table) traced)

-- Back to the context of the caller, which a call does not change.
unfoldable pub back_in : Option ℕ → World → World
back_in ctx w = record w { context = ctx }

-- A method of otelBackend. The elapsed time is in milliseconds.
unfoldable pub traced :
    {In Out : Type 0} → Config → Bytes → (In → Bytes) → Method In Out → Method In Out
unfolding begin_span finish now after_reading error_of back_in
traced cfg operation table call req w =
    let begun = begin_span cfg operation w in
    let start = now begun in
    let (done, resp) = call req (after_reading begun) in
    (
      back_in w.context (
          finish cfg operation (table req) begun.context ((now done - start) / 1000000)
            (error_of resp) (after_reading done)),
      resp,
    )

-- NewMiddleware
unfoldable pub otel_middleware : Config → Backend → Backend
unfolding traced
otel_middleware cfg inner = record {
  get_item = traced cfg (bytes "GetItem") (λ req. req.table_name) inner.get_item;
  put_item = traced cfg (bytes "PutItem") (λ req. req.table_name) inner.put_item;
  delete_item = traced cfg (bytes "DeleteItem") (λ req. req.table_name) inner.delete_item;
  update_item = traced cfg (bytes "UpdateItem") (λ req. req.table_name) inner.update_item;
  query = traced cfg (bytes "Query") (λ req. req.table_name) inner.query;
  scan = traced cfg (bytes "Scan") (λ req. req.table_name) inner.scan;
  batch_get_item = traced cfg (bytes "BatchGetItem") (λ req. []) inner.batch_get_item;
  batch_write_item = traced cfg (bytes "BatchWriteItem") (λ req. []) inner.batch_write_item;
  transact_get_items = traced cfg (bytes "TransactGetItems") (λ req. []) inner.transact_get_items;
  transact_write_items =
      traced cfg (bytes "TransactWriteItems") (λ req. []) inner.transact_write_items;
}
