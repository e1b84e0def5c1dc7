-- ===== src/Client/Requests/Answers.antt =====
-- query.go on memdb/memdb.go: what a Query of the client returns from the in-memory backend.
use dynago.Prelude.{
  ℕ, zero, suc, ◌≡◌, inl, inr, refl, ◌∙◌, List, [], Bytes, Option, some, Assoc, lookup, keys,
  length, Result, ok, arith,
}
use dynago.Attribute.{AttributeValue, Item, no_attrs}
use dynago.Backend.{QueryRequest}
use dynago.Expr.Floats.{FloatOps}
use dynago.Memdb.Schema.{KeyDef, TableData, MemoryBackend, table}
use dynago.Memdb.Keys.{key_of, key_string}
use dynago.Memdb.KeyCondition.Parse.{SortKeyCondition, parse_key_condition}
use dynago.Memdb.Updates.StringSets.{IsDistinct}
use dynago.Memdb.Reads.Page.{collect}
use dynago.Memdb.Reads.Query.{source_of, candidates, query, query_in, query_partition}
use dynago.Client.Pages.Loops.{Ask, read_all}
use dynago.Client.Pages.Serves.{Serves, limited, values_of}
use dynago.Client.Pages.Complete.{read_all-Serves}
use dynago.Client.Pages.InMemory.{ask_partition, ask_partition-Serves}
use dynago.Client.Requests.Queries.{query_page}

same_answers :
    (ask other : Ask) (n : ℕ) (start : Item) (items : List Item)
    → ((limit : ℕ) (key : Item) → ask limit key ≡ other limit key)
    → Serves other n start items
    → Serves ask n start items
same_answers ask other zero start items same served = served
same_answers ask other (suc n) start items same served = λ limit.
    let (resp, answered, pages) = served limit in
    elim pages [
      | inl (over, all) ↦ (resp, same limit start ∙ answered, inl (over, all))
      | inr (going, (later, split, rest)) ↦ (
        resp,
        same limit start ∙ answered,
        inr (
          going,
          (later, split, same_answers ask other n resp.last_evaluated_key later same rest),
        ),
      )
    ]

module _ {A : Type 0} (F : FloatOps) (unmarshal : Item → Result A) (total : ℕ) (req : QueryRequest)
    (m : MemoryBackend) (td : TableData) (def : KeyDef) (pk : AttributeValue)
    (cond : Option SortKeyCondition) (rng : Assoc Item) where
  query-ask_partition :
      (limit : ℕ) (start : Item)
      → table req.table_name m ≡ ok td
      → req.index_name ≡ []
      → td.schema.range_key ≡ some def
      → parse_key_condition req.key_condition_expression req.placeholders td.schema.hash_key.name
          (some def)
        ≡ ok (pk, cond)
      → lookup (key_string pk) td.items ≡ some rng
      → query_page (λ r. query F r m) req limit start
        ≡ ask_partition F req.filter_expression req.projection_expression req.placeholders cond
            td.schema.hash_key def req.scan_index_forward rng limit start
  unfolding query query_in source_of query_partition
  query-ask_partition limit start there whole ranged parsed stored =
      rw (there, whole, source_of, ranged, parsed, stored) refl

  -- A Query of the client on a table of the in-memory backend that has a range key: if its key
  -- condition parses to a stored partition with distinct keys whose items stand at their range keys,
  -- the filter can be evaluated on all candidates and what is left unmarshals, then the loop over the
  -- pages ends and returns the values in order, all of them without a limit and else the first
  -- `total`, whatever the pages are that the limits of its requests make.
  pub read_all-query :
      (items : List Item) (vs : List A)
      → table req.table_name m ≡ ok td
      → req.index_name ≡ []
      → td.schema.range_key ≡ some def
      → parse_key_condition req.key_condition_expression req.placeholders td.schema.hash_key.name
          (some def)
        ≡ ok (pk, cond)
      → lookup (key_string pk) td.items ≡ some rng
      → IsDistinct (keys rng)
      → ((k : Bytes) (item : Item) → lookup k rng ≡ some item → key_of def item ≡ ok k)
      → collect F req.filter_expression req.projection_expression req.placeholders
          (candidates F cond (some def) req.scan_index_forward no_attrs rng)
        ≡ ok items
      → values_of unmarshal items ≡ ok vs
      → read_all unmarshal total
          (query_page (λ r. query F r m) req)
          (suc (length (candidates F cond (some def) req.scan_index_forward no_attrs rng)))
        ≡ ok (limited total vs)
  read_all-query items vs there whole ranged parsed stored distinct keyed filtered fine =
      let n = suc (length (candidates F cond (some def) req.scan_index_forward no_attrs rng)) in
      let served =
        ask_partition-Serves F req.filter_expression req.projection_expression req.placeholders cond
          td.schema.hash_key def req.scan_index_forward rng n no_attrs items distinct keyed
          (omega arith) filtered in
      read_all-Serves unmarshal total (query_page (λ r. query F r m) req) n items vs
        (same_answers (query_page (λ r. query F r m) req)
          (ask_partition F req.filter_expression req.projection_expression req.placeholders cond
            td.schema.hash_key def req.scan_index_forward rng)
          n no_attrs items
          (λ limit start. query-ask_partition limit start there whole ranged parsed stored) served)
        fine
