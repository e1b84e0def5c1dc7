-- ===== src/Client/Pages/Serves.antt =====
-- query.go, scan.go, collection.go: what the loops return from a backend that serves a list in pages.
use dynago.Prelude.{
  ℕ, zero, suc, ◌≤◌, ◌≡◌, ◌⊎◌, refl, sym, ap, ◌∙◌, true, false, List, [], ◌∷◌, ◌++◌, length, take,
  length-append, Result, ok, err, ◌>>=◌, arith,
}
use mathlib.Core.List.{append_assoc}
use dynago.Attribute.{Item}
use dynago.Backend.{PageResponse}
use dynago.Client.Pages.Loops.{Ask, is_last, is_full}

-- From a start key on, and whatever the limits, the items come in order in at most `n` pages, and
-- the last of them alone has no LastEvaluatedKey. A page may be empty, as it is when a filter
-- refuses all of its items.
abbrev pub Serves : Ask → ℕ → Item → List Item → Type 0
Serves ask zero start rest = ⊥
Serves ask (suc n) start rest =
    (limit : ℕ)
    → (resp : PageResponse) × (ask limit start ≡ ok resp)
      × (((is_last resp.last_evaluated_key ≡ true) × (rest ≡ resp.items))
          ⊎ ((is_last resp.last_evaluated_key ≡ false)
              × ((later : List Item) × (rest ≡ resp.items ++ later)
                  × Serves ask n resp.last_evaluated_key later)))

module _ {A : Type 0} where
  -- The results under a total limit, where 0 is none.
  unfoldable pub limited : ℕ → List A → List A
  limited zero vs = vs
  limited (suc n) vs = take (suc n) vs

  -- The values of all items, if all of them unmarshal.
  unfoldable pub values_of : (Item → Result A) → List Item → Result (List A)
  values_of unmarshal [] = ok []
  values_of unmarshal (item ∷ items) =
      let rest = values_of unmarshal items in do v ← unmarshal item; vs ← rest; ok (v ∷ vs)

  -- The values of the items that unmarshal.
  unfoldable pub known_of : (Item → Result A) → List Item → List A
  known_of unmarshal [] = []
  known_of unmarshal (item ∷ items) =
      let rest = known_of unmarshal items in
      elim (unmarshal item) [ ok v ↦ v ∷ rest | err e ↦ rest ]

  take-all : (n : ℕ) (xs : List A) → length xs ≤ n → take n xs ≡ xs
  take-all zero [] h = refl
  take-all zero (x ∷ xs) h = absurd (omega (arith, h))
  take-all (suc n) [] h = refl
  take-all (suc n) (x ∷ xs) h = ap (x ∷◌) (take-all n xs (omega (arith, h)))

  take-prefix : (n : ℕ) (xs ys : List A) → length xs ≡ n → take n (xs ++ ys) ≡ xs
  take-prefix zero [] ys h = refl
  take-prefix zero (x ∷ xs) ys h = absurd (omega (arith, h))
  take-prefix (suc n) [] ys h = absurd (omega (arith, h))
  take-prefix (suc n) (x ∷ xs) ys h = ap (x ∷◌) (take-prefix n xs ys (omega (arith, h)))

  pub limited-open : (total : ℕ) (xs : List A) → is_full total xs ≡ false → limited total xs ≡ xs
  unfolding limited is_full
  limited-open zero xs h = refl
  limited-open (suc n) xs h = take-all (suc n) xs (ground arith)

  pub limited-full :
      (total : ℕ) (xs : List A) (v : A) (ys : List A)
      → is_full total xs ≡ false
      → is_full total (xs ++ v ∷ []) ≡ true
      → limited total (xs ++ v ∷ ys) ≡ xs ++ v ∷ []
  unfolding limited is_full
  limited-full zero xs v ys h full = absurd (ground arith)
  limited-full (suc n) xs v ys h full =
      ap (take (suc n)) (sym (append_assoc xs (v ∷ []) ys))
      ∙ take-prefix (suc n) (xs ++ v ∷ []) ys (ground (arith, length-append xs (v ∷ [])))
