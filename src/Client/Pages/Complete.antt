-- ===== src/Client/Pages/Complete.antt =====
-- query.go, scan.go, collection.go: the loops over pages return what they should.
use dynago.Prelude.{
  ℕ, zero, suc, ◌≤◌, ◌≡◌, inl, inr, refl, sym, ap, ◌∙◌, true, false, List, [], ◌∷◌, ◌++◌, Result,
  ok, ◌>>=◌, >>=-eq-ok, arith,
}
use mathlib.Core.List.{append_assoc, append-nil}
use mathlib.Core.Path.{subst}
use dynago.Attribute.{Item, no_attrs}
use dynago.Client.Pages.Loops.{
  Ask, is_full, next_limit, read_pages, read_all, take_known, collect_pages, query_collection,
}
use dynago.Client.Pages.Serves.{Serves, limited, values_of, known_of, limited-open}
use dynago.Client.Pages.Ends.{IsPageEnd, page_taken, known_taken}

module _ {A : Type 0} (unmarshal : Item → Result A) (total : ℕ) where
  pub values_of-append :
      (xs ys : List Item) (vs : List A)
      → values_of unmarshal (xs ++ ys) ≡ ok vs
      → (as' : List A) × (bs : List A) × (values_of unmarshal xs ≡ ok as')
        × (values_of unmarshal ys ≡ ok bs)
        × (vs ≡ as' ++ bs)
  unfolding values_of
  values_of-append [] ys vs e = ([], vs, refl, e, refl)
  values_of-append (x ∷ xs) ys vs e =
      let (v, fine, chain) =
        >>=-eq-ok (unmarshal x) (λ v. values_of unmarshal (xs ++ ys) >>= λ ws. ok (v ∷ ws)) e in
      let (ws, rest, last) = >>=-eq-ok (values_of unmarshal (xs ++ ys)) (λ ws. ok (v ∷ ws)) chain in
      let (as', bs, front, back, split) = values_of-append xs ys ws rest in
      let whole : v ∷ ws ≡ vs = ground arith in
      (v ∷ as', bs, rw (fine, front) refl, back, sym whole ∙ ap (v ∷◌) split)

  pub known_of-append :
      (xs ys : List Item)
      → known_of unmarshal (xs ++ ys) ≡ known_of unmarshal xs ++ known_of unmarshal ys
  unfolding known_of
  known_of-append [] ys = refl
  known_of-append (x ∷ xs) ys = ground (arith, known_of-append xs ys)

  read_on :
      (ask : Ask) (n fuel limit : ℕ) (start : Item) (rest : List Item) (results vs : List A)
      → n ≤ fuel
      → Serves ask n start rest
      → is_full total results ≡ false
      → values_of unmarshal rest ≡ ok vs
      → read_pages unmarshal total ask fuel limit start results ≡ ok (limited total (results ++ vs))
  unfolding read_pages IsPageEnd
  read_on ask zero fuel limit start rest results vs enough served open_yet fine = absurd served
  read_on ask (suc n) zero limit start rest results vs enough served open_yet fine =
      absurd (omega (arith, enough))
  read_on ask (suc n) (suc fuel) limit start rest results vs enough served open_yet fine =
      let (resp, answered, pages) = served limit in
      elim pages [
        | inl (over, all) ↦
            let (out, taken, ends) =
              page_taken unmarshal total resp.items results vs open_yet
                (subst (λ l. values_of unmarshal l ≡ ok vs) all fine) in
            elim ends [
              | inl (e, still) ↦ ground (arith, limited-open total (results ++ vs) still)
              | inr stop ↦
                  let e : out ≡ (true, limited total (results ++ vs)) =
                    subst (λ l. out ≡ (true, limited total (results ++ l))) (append-nil vs)
                      (stop []) in
                  ground arith
            ]
        | inr (going, (later, split, served_later)) ↦
            let (front, back, fine_front, fine_back, parts) =
              values_of-append resp.items later vs
                (subst (λ l. values_of unmarshal l ≡ ok vs) split fine) in
            let (out, taken, ends) =
              page_taken unmarshal total resp.items results front open_yet fine_front in
            elim ends [
              | inl (e, still) ↦
                  let tail =
                    read_on ask n fuel (next_limit total limit (results ++ front))
                      resp.last_evaluated_key later (results ++ front) back (omega (arith, enough))
                      served_later still fine_back in
                  let same = append_assoc results front back ∙ ap (results ++◌) (sym parts) in
                  subst
                    (λ l.
                      read_pages unmarshal total ask (suc fuel) limit start results
                      ≡ ok (limited total l))
                    same (ground (arith, tail))
              | inr stop ↦
                  let e : out ≡ (true, limited total (results ++ vs)) =
                    stop back ∙ ap (λ l. (true, limited total (results ++ l))) (sym parts) in
                  ground arith
            ]
      ]

  collect_on :
      (ask : Ask) (n fuel : ℕ) (start : Item) (rest : List Item) (results : List A)
      → n ≤ fuel
      → Serves ask n start rest
      → is_full total results ≡ false
      → collect_pages unmarshal total ask fuel start results
        ≡ ok (limited total (results ++ known_of unmarshal rest))
  unfolding collect_pages IsPageEnd
  collect_on ask zero fuel start rest results enough served open_yet = absurd served
  collect_on ask (suc n) zero start rest results enough served open_yet =
      absurd (omega (arith, enough))
  collect_on ask (suc n) (suc fuel) start rest results enough served open_yet =
      let (resp, answered, pages) = served total in
      let front = known_of unmarshal resp.items in
      elim pages [
        | inl (over, all) ↦
            let known = ap (known_of unmarshal) all in
            elim (known_taken unmarshal total resp.items results open_yet) [
              | inl (e, still) ↦ ground (arith, limited-open total (results ++ front) still)
              | inr stop ↦
                  let e : take_known unmarshal total resp.items results
                      ≡ (true, limited total (results ++ front)) =
                    stop [] ∙ ap (λ l. (true, limited total (results ++ l))) (append-nil front) in
                  ground arith
            ]
        | inr (going, (later, split, served_later)) ↦
            let back = known_of unmarshal later in
            let parts = ap (known_of unmarshal) split ∙ known_of-append resp.items later in
            elim (known_taken unmarshal total resp.items results open_yet) [
              | inl (e, still) ↦
                  let tail =
                    collect_on ask n fuel resp.last_evaluated_key later (results ++ front)
                      (omega (arith, enough)) served_later still in
                  let same = append_assoc results front back ∙ ap (results ++◌) (sym parts) in
                  subst
                    (λ l.
                      collect_pages unmarshal total ask (suc fuel) start results
                      ≡ ok (limited total l))
                    same (ground (arith, tail))
              | inr stop ↦
                  let e : take_known unmarshal total resp.items results
                      ≡ (true, limited total (results ++ known_of unmarshal rest)) =
                    stop back ∙ ap (λ l. (true, limited total (results ++ l))) (sym parts) in
                  ground arith
            ]
      ]

  not_full : is_full {A = A} total [] ≡ false
  unfolding is_full
  not_full = ground arith

  -- If the backend serves a list of items in at most n pages and all items unmarshal, Query and Scan
  -- return the values of the items in order, all of them without a limit and else the first `total`
  -- of them, and read at most n pages.
  pub read_all-Serves :
      (ask : Ask) (n : ℕ) (items : List Item) (vs : List A)
      → Serves ask n no_attrs items
      → values_of unmarshal items ≡ ok vs
      → read_all unmarshal total ask n ≡ ok (limited total vs)
  unfolding read_all
  read_all-Serves ask n items vs served fine =
      read_on ask n n total no_attrs items [] vs (omega arith) served not_full fine

  -- If the backend serves a list of items in at most n pages, QueryCollection returns the values of
  -- those that unmarshal in order, all of them without a limit and else the first `total` of them,
  -- and reads at most n pages.
  pub query_collection-Serves :
      (ask : Ask) (n : ℕ) (items : List Item)
      → Serves ask n no_attrs items
      → query_collection unmarshal total ask n ≡ ok (limited total (known_of unmarshal items))
  unfolding query_collection
  query_collection-Serves ask n items served =
      collect_on ask n n no_attrs items [] (omega arith) served not_full
