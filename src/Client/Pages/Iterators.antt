-- ===== src/Client/Pages/Iterators.antt =====
-- iter.go and collection.go: QueryIter, ScanIter and CollectionIter. The loop body of the caller is
-- `yield`, a function on the caller's state that also says whether it goes on.
use dynago.Prelude.{
  ℕ, zero, suc, ◌≤◌, ◌≡◌, inl, inr, refl, sym, ap, ◌∙◌, Bool, true, false, List, [], ◌∷◌, ◌++◌,
  Bool-cases, Result-cases, Result, ok, err, out_of_fuel, ◌>>=◌, >>=-eq-ok, arith,
}
use mathlib.Core.Path.{subst}
use dynago.Attribute.{Item, no_attrs}
use dynago.Client.Pages.Loops.{Ask, is_last}
use dynago.Client.Pages.Serves.{Serves, values_of, known_of}
use dynago.Client.Pages.Complete.{values_of-append, known_of-append}

module _ {A W : Type 0} (unmarshal : Item → Result A) (total : ℕ)
    (yield : Result A → W → W × Bool) where
  -- The loop over resp.Items: the caller's state, and whether the iterator goes on.
  unfoldable pub offer : List Item → W → W × Bool
  offer [] w = (w, true)
  offer (item ∷ items) w = elim (unmarshal item) [
    | err e ↦ ((yield (err e) w).0, false)
    | ok v ↦
        let (next, going) = yield (ok v) w in
        elim going [ true ↦ offer items next | false ↦ (next, false) ]
  ]

  -- QueryIter and ScanIter from a page on: every request has the configured limit.
  unfoldable pub iterate : Ask → ℕ → Item → W → Result W
  unfolding offer is_last
  iterate ask zero start w = err out_of_fuel
  iterate ask (suc fuel) start w = elim (ask total start) [
    | err e ↦ ok (yield (err e) w).0
    | ok resp ↦
        let (next, going) = offer resp.items w in
        elim going [
          | false ↦ ok next
          | true ↦ elim (is_last resp.last_evaluated_key) [
            | true ↦ ok next
            | false ↦ iterate ask fuel resp.last_evaluated_key next
          ]
        ]
  ]

  -- CollectionIter: an item that does not unmarshal is skipped.
  unfoldable pub offer_known : List Item → W → W × Bool
  offer_known [] w = (w, true)
  offer_known (item ∷ items) w = elim (unmarshal item) [
    | err e ↦ offer_known items w
    | ok v ↦
        let (next, going) = yield (ok v) w in
        elim going [ true ↦ offer_known items next | false ↦ (next, false) ]
  ]

  unfoldable pub iterate_known : Ask → ℕ → Item → W → Result W
  unfolding offer_known is_last
  iterate_known ask zero start w = err out_of_fuel
  iterate_known ask (suc fuel) start w = elim (ask total start) [
    | err e ↦ ok (yield (err e) w).0
    | ok resp ↦
        let (next, going) = offer_known resp.items w in
        elim going [
          | false ↦ ok next
          | true ↦ elim (is_last resp.last_evaluated_key) [
            | true ↦ ok next
            | false ↦ iterate_known ask fuel resp.last_evaluated_key next
          ]
        ]
  ]

  -- A loop over a slice of values with the same body.
  unfoldable pub feed : List A → W → W × Bool
  feed [] w = (w, true)
  feed (v ∷ vs) w =
      let (next, going) = yield (ok v) w in
      elim going [ true ↦ feed vs next | false ↦ (next, false) ]

  offer-feed :
      (items : List Item) (vs : List A) (w : W)
      → values_of unmarshal items ≡ ok vs
      → offer items w ≡ feed vs w
  unfolding offer feed values_of
  offer-feed [] vs w e = ground arith
  offer-feed (item ∷ items) vs w e =
      let (v, fine, chain) =
        >>=-eq-ok (unmarshal item) (λ v. values_of unmarshal items >>= λ ws. ok (v ∷ ws)) e in
      let (ws, rest, last) = >>=-eq-ok (values_of unmarshal items) (λ ws. ok (v ∷ ws)) chain in
      let whole : v ∷ ws ≡ vs = ground arith in
      subst (λ l. offer (item ∷ items) w ≡ feed l w) whole
        (ground (arith, offer-feed items ws (yield (ok v) w).0 rest))

  offer_known-feed :
      (items : List Item) (w : W) → offer_known items w ≡ feed (known_of unmarshal items) w
  unfolding offer_known feed known_of
  offer_known-feed [] w = refl
  offer_known-feed (item ∷ items) w = elim (Result-cases (unmarshal item)) [
    | inr (x, unknown) ↦ ground (arith, offer_known-feed items w)
    | inl (v, fine) ↦ ground (arith, offer_known-feed items (yield (ok v) w).0)
  ]

  -- Feeding two lists one after the other.
  feed-append :
      (vs ws : List A) (w : W)
      → feed (vs ++ ws) w ≡ elim (feed vs w).1 [ true ↦ feed ws (feed vs w).0 | false ↦ feed vs w ]
  unfolding feed
  feed-append [] ws w = refl
  feed-append (v ∷ vs) ws w = ground (arith, feed-append vs ws (yield (ok v) w).0)

  iterate_on :
      (ask : Ask) (n fuel : ℕ) (start : Item) (rest : List Item) (vs : List A) (w : W)
      → n ≤ fuel
      → Serves ask n start rest
      → values_of unmarshal rest ≡ ok vs
      → iterate ask fuel start w ≡ ok (feed vs w).0
  unfolding iterate
  iterate_on ask zero fuel start rest vs w enough served fine = absurd served
  iterate_on ask (suc n) zero start rest vs w enough served fine = absurd (omega (arith, enough))
  iterate_on ask (suc n) (suc fuel) start rest vs w enough served fine =
      let (resp, answered, pages) = served total in
      elim pages [
        | inl (over, all) ↦
            let fed =
              offer-feed resp.items vs w (subst (λ l. values_of unmarshal l ≡ ok vs) all fine) in
            ground (arith, Bool-cases (feed vs w).1)
        | inr (going, (later, split, served_later)) ↦
            let (front, back, fine_front, fine_back, parts) =
              values_of-append unmarshal total resp.items later vs
                (subst (λ l. values_of unmarshal l ≡ ok vs) split fine) in
            let fed = offer-feed resp.items front w fine_front in
            let tail =
              iterate_on ask n fuel resp.last_evaluated_key later back (feed front w).0
                (omega (arith, enough)) served_later fine_back in
            subst (λ l. iterate ask (suc fuel) start w ≡ ok (feed l w).0) (sym parts)
              (ground (arith, tail, feed-append front back w))
      ]

  iterate_known_on :
      (ask : Ask) (n fuel : ℕ) (start : Item) (rest : List Item) (w : W)
      → n ≤ fuel
      → Serves ask n start rest
      → iterate_known ask fuel start w ≡ ok (feed (known_of unmarshal rest) w).0
  unfolding iterate_known
  iterate_known_on ask zero fuel start rest w enough served = absurd served
  iterate_known_on ask (suc n) zero start rest w enough served = absurd (omega (arith, enough))
  iterate_known_on ask (suc n) (suc fuel) start rest w enough served =
      let (resp, answered, pages) = served total in
      let fed = offer_known-feed resp.items w in
      elim pages [
        | inl (over, all) ↦
            subst (λ l. iterate_known ask (suc fuel) start w ≡ ok (feed (known_of unmarshal l) w).0)
              (sym all) (ground (arith, Bool-cases (feed (known_of unmarshal resp.items) w).1))
        | inr (going, (later, split, served_later)) ↦
            let front = known_of unmarshal resp.items in
            let back = known_of unmarshal later in
            let parts =
              ap (known_of unmarshal) split ∙ known_of-append unmarshal total resp.items later in
            let tail =
              iterate_known_on ask n fuel resp.last_evaluated_key later (feed front w).0
                (omega (arith, enough)) served_later in
            subst (λ l. iterate_known ask (suc fuel) start w ≡ ok (feed l w).0) (sym parts)
              (ground (arith, tail, feed-append front back w))
      ]

  -- If the backend serves a list of items in at most n pages and all items unmarshal, a loop over
  -- QueryIter or ScanIter runs as a loop over the slice of their values does, whether or not its body
  -- stops it, reads at most n pages, and has no limit in all: a limit bounds the pages only.
  pub iterate-feed :
      (ask : Ask) (n : ℕ) (items : List Item) (vs : List A) (w : W)
      → Serves ask n no_attrs items
      → values_of unmarshal items ≡ ok vs
      → iterate ask n no_attrs w ≡ ok (feed vs w).0
  iterate-feed ask n items vs w served fine =
      iterate_on ask n n no_attrs items vs w (omega arith) served fine

  -- If the backend serves a list of items in at most n pages, a loop over CollectionIter runs as a
  -- loop over the slice of the values of the items that unmarshal does, and reads at most n pages.
  iterate_known-feed :
      (ask : Ask) (n : ℕ) (items : List Item) (w : W)
      → Serves ask n no_attrs items
      → iterate_known ask n no_attrs w ≡ ok (feed (known_of unmarshal items) w).0
  iterate_known-feed ask n items w served =
      iterate_known_on ask n n no_attrs items w (omega arith) served
