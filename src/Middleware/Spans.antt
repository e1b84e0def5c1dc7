-- ===== src/Middleware/Spans.antt =====
-- dynagotel/dynagotel.go: the spans that a wrapped backend leaves.
use dynago.Prelude.{ℕ, ◌≡◌, List, [], ◌∷◌, Option, none, some, if◌then◌else◌, ◌==◌}
use dynago.Middleware.Interface.{
  Event, log_line, span_start, span_error, span_end, counted, latency, World, Method, Backend,
}

-- The spans that stay open after an event, the last one first; none if the event is not about the
-- last one.
unfoldable pub next_open : Event → Option (List ℕ) → Option (List ℕ)
next_open (span_start span operation) (some spans) = some (span ∷ spans)
next_open (span_error span) (some (last ∷ spans)) =
    if last == span then some (last ∷ spans) else none
next_open (span_error span) (some []) = none
next_open (span_end span) (some (last ∷ spans)) = if last == span then some spans else none
next_open (span_end span) (some []) = none
next_open (log_line level operation table dur failure) spans = spans
next_open (counted operation table) spans = spans
next_open (latency operation table elapsed) spans = spans
next_open e none = none

unfoldable pub open_spans : List Event → Option (List ℕ)
unfolding next_open
open_spans [] = some []
open_spans (e ∷ es) = next_open e (open_spans es)

-- A method that ends the spans that it starts, and no others.
abbrev pub IsNested : {In Out : Type 0} → Method In Out → Type 0
IsNested {In = In} m =
    (req : In) (w : World) (spans : List ℕ)
    → open_spans w.events ≡ some spans
    → open_spans (m req w).0.events ≡ some spans

pub record AreNested (b : Backend) : Type 0 where
  pub get_item : IsNested b.get_item
  pub put_item : IsNested b.put_item
  pub delete_item : IsNested b.delete_item
  pub update_item : IsNested b.update_item
  pub query : IsNested b.query
  pub scan : IsNested b.scan
  pub batch_get_item : IsNested b.batch_get_item
  pub batch_write_item : IsNested b.batch_write_item
  pub transact_get_items : IsNested b.transact_get_items
  pub transact_write_items : IsNested b.transact_write_items
