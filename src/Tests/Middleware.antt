-- ===== src/Tests/Middleware.antt =====
-- middleware.go, logging.go, dynagotel/dynagotel.go on one stack of middleware.
use dynago.Prelude.{
  ◌≡◌, refl, List, [], ◌∷◌, Bytes, bytes, none, some, true, false, map, lookup, validation, Option,
  Error,
}
use dynago.Attribute.{no_attrs}
use dynago.Backend.{GetItemRequest}
use dynago.Expr.Floats.{FloatOps}
use dynago.Memdb.Schema.{table}
use dynago.Middleware.Interface.{
  World, debug, warn, log_line, span_start, span_error, span_end, latency, in_memory,
  with_middleware,
}
use dynago.Middleware.Observers.{
  now, after_reading, emit_event, error_of, record_error, logging_middleware, otel_middleware,
}
use dynago.Memdb.Reads.Get.{get_item_request}
use dynago.Middleware.Transparent.{
  Layer, logging, tracing, AreAlike, middleware_of, with_middleware-AreAlike,
}

abbrev no_arithmetic : FloatOps
no_arithmetic = record {
  parse_float = λ s. none;
  scan_float = λ s. (0, false);
  less = λ a b. false;
  plus = λ a b. 0;
  minus = λ a b. 0;
  is_integral = λ f. false;
  print_int = λ f. [];
  print_g = λ f. [];
}

abbrev layers : List Layer
layers =
    logging 5
    ∷ tracing (record { has_tracer = true; has_counter = false; has_latency = true })
    ∷ logging 0
    ∷ []

abbrev missing : GetItemRequest
missing = record { table_name = bytes "t"; key = no_attrs; projection_expression = []; names = [] }

with_middleware-AreAlike_example :
    AreAlike
      (with_middleware (map middleware_of layers) (in_memory no_arithmetic))
      (in_memory no_arithmetic)
with_middleware-AreAlike_example = with_middleware-AreAlike no_arithmetic layers

abbrev start : World
start = record {
  store = [];
  readings = 10 ∷ 20 ∷ 30 ∷ 36 ∷ 40 ∷ 50 ∷ [];
  events = [];
  next_span = 0;
  context = none;
}

abbrev call : Bytes
call = bytes "GetItem"

abbrev lost : Option Error
lost = some validation

-- The table is missing: the inner logger finds the call slow, and the span records the error.
events_of_call :
    ((with_middleware (map middleware_of layers) (in_memory no_arithmetic)).get_item missing
      start).0.events
    ≡ log_line debug call (bytes "t") 40 lost
      ∷ latency call (bytes "t") 0
      ∷ span_end 0
      ∷ span_error 0
      ∷ log_line warn call (bytes "t") 6 lost
      ∷ log_line debug call (bytes "t") 6 lost
      ∷ span_start 0 call
      ∷ []
unfolding with_middleware logging_middleware otel_middleware in_memory after_reading emit_event
    error_of now record_error get_item_request table lookup
events_of_call = refl
