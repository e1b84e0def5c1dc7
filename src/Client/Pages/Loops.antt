-- ===== src/Client/Pages/Loops.antt =====
-- query.go, scan.go and collection.go: Query, Scan and QueryCollection.
use dynago.Prelude.{
  ℕ, zero, suc, ◌-◌, Bool, true, false, ◌&&◌, List, [], ◌∷◌, ◌++◌, ltb, leb, length, Result, ok,
  err, out_of_fuel, if◌then◌else◌,
}
use dynago.Attribute.{Item, no_attrs, attr}
use dynago.Backend.{PageResponse}

abbrev pub Ask : Type 0
Ask = ℕ → Item → Result PageResponse

-- len(resp.LastEvaluatedKey) == 0
unfoldable pub is_last : Item → Bool
is_last no_attrs = true
is_last (attr k v key) = false

-- totalLimit > 0 && int32(len(results)) >= totalLimit
unfoldable pub is_full {ℓ} : {A : Type ℓ} → ℕ → List A → Bool
is_full total results = ltb 0 total && leb total (length results)

-- req.Limit of the request for the page after these results
unfoldable pub next_limit {ℓ} : {A : Type ℓ} → ℕ → ℕ → List A → ℕ
next_limit total limit results = if ltb 0 total then total - length results else limit

module _ {A : Type 0} (unmarshal : Item → Result A) (total : ℕ) where
  -- The loop over resp.Items: whether the total limit is reached, and the results.
  unfoldable pub take_page : List Item → List A → Result (Bool × List A)
  unfolding is_full
  take_page [] results = ok (false, results)
  take_page (item ∷ items) results = elim (unmarshal item) [
    | err e ↦ err e
    | ok v ↦ elim (is_full total (results ++ v ∷ [])) [
      | true ↦ ok (true, results ++ v ∷ [])
      | false ↦ take_page items (results ++ v ∷ [])
    ]
  ]

  -- The loop over the pages; the fuel bounds its rounds.
  unfoldable pub read_pages : Ask → ℕ → ℕ → Item → List A → Result (List A)
  unfolding take_page is_last next_limit
  read_pages ask zero limit start results = err out_of_fuel
  read_pages ask (suc fuel) limit start results = elim (ask limit start) [
    | err e ↦ err e
    | ok resp ↦ elim (take_page resp.items results) [
      | err e ↦ err e
      | ok (true, all) ↦ ok all
      | ok (false, all) ↦ elim (is_last resp.last_evaluated_key) [
        | true ↦ ok all
        | false ↦ read_pages ask fuel (next_limit total limit all) resp.last_evaluated_key all
      ]
    ]
  ]

  -- Query and Scan: the limit of the first request is the total limit.
  unfoldable pub read_all : Ask → ℕ → Result (List A)
  unfolding read_pages
  read_all ask fuel = read_pages ask fuel total no_attrs []

  -- collection.go: the loop over resp.Items, where an item that does not unmarshal is skipped
  unfoldable pub take_known : List Item → List A → Bool × List A
  unfolding is_full
  take_known [] results = (false, results)
  take_known (item ∷ items) results = elim (unmarshal item) [
    | err e ↦ take_known items results
    | ok v ↦ elim (is_full total (results ++ v ∷ [])) [
      | true ↦ (true, results ++ v ∷ [])
      | false ↦ take_known items (results ++ v ∷ [])
    ]
  ]

  -- QueryCollection from a page on. Every request has the configured limit: the limit that is set
  -- at the end of a round is that of a request which is built anew.
  unfoldable pub collect_pages : Ask → ℕ → Item → List A → Result (List A)
  unfolding take_known is_last
  collect_pages ask zero start results = err out_of_fuel
  collect_pages ask (suc fuel) start results = elim (ask total start) [
    | err e ↦ err e
    | ok resp ↦
        let (full, all) = take_known resp.items results in
        elim full [
          | true ↦ ok all
          | false ↦ elim (is_last resp.last_evaluated_key) [
            | true ↦ ok all
            | false ↦ collect_pages ask fuel resp.last_evaluated_key all
          ]
        ]
  ]

  unfoldable pub query_collection : Ask → ℕ → Result (List A)
  unfolding collect_pages
  query_collection ask fuel = collect_pages ask fuel no_attrs []
