-- ===== src/Client/Pages/Ends.antt =====
-- query.go, scan.go, collection.go: how the loop over the items of a page ends.
use dynago.Prelude.{
  ℕ, ◌≡◌, ◌⊎◌, inl, inr, refl, sym, ap, ◌∙◌, Bool, true, false, List, [], ◌∷◌, ◌++◌, Bool-cases,
  Result-cases, Result, ok, ◌>>=◌, >>=-eq-ok, arith,
}
use mathlib.Core.List.{append_assoc, append-nil}
use mathlib.Core.Path.{subst}
use dynago.Attribute.{Item}
use dynago.Client.Pages.Loops.{is_full, take_page, take_known}
use dynago.Client.Pages.Serves.{limited, values_of, known_of, limited-full}

module _ {A : Type 0} (unmarshal : Item → Result A) (total : ℕ) where
  -- How a page ends: the limit is not reached, or nothing behind the page counts.
  unfoldable pub IsPageEnd : Bool × List A → List A → List A → Type 0
  IsPageEnd out results vs =
      ((out ≡ (false, results ++ vs)) × (is_full total (results ++ vs) ≡ false))
      ⊎ ((more : List A) → out ≡ (true, limited total (results ++ (vs ++ more))))

  IsPageEnd-cons :
      (out : Bool × List A) (results : List A) (v : A) (vs : List A)
      → IsPageEnd out (results ++ v ∷ []) vs
      → IsPageEnd out results (v ∷ vs)
  unfolding IsPageEnd
  IsPageEnd-cons out results v vs (inl (e, open_yet)) = inl (
    e ∙ ap (λ l. (false, l)) (append_assoc results (v ∷ []) vs),
    ap (is_full total) (sym (append_assoc results (v ∷ []) vs)) ∙ open_yet,
  )
  IsPageEnd-cons out results v vs (inr all) = inr (λ more.
      all more ∙ ap (λ l. (true, limited total l)) (append_assoc results (v ∷ []) (vs ++ more)))

  IsPageEnd-nil :
      (results : List A) → is_full total results ≡ false → IsPageEnd (false, results) results []
  unfolding IsPageEnd
  IsPageEnd-nil results open_yet = inl (
    ap (λ l. (false, l)) (sym (append-nil results)),
    ap (is_full total) (append-nil results) ∙ open_yet,
  )

  IsPageEnd-full :
      (results : List A) (v : A) (vs : List A)
      → is_full total results ≡ false
      → is_full total (results ++ v ∷ []) ≡ true
      → IsPageEnd (true, results ++ v ∷ []) results (v ∷ vs)
  unfolding IsPageEnd
  IsPageEnd-full results v vs open_yet full =
      inr (λ more.
        ap (λ l. (true, l)) (sym (limited-full total results v (vs ++ more) open_yet full)))

  pub page_taken :
      (items : List Item) (results vs : List A)
      → is_full total results ≡ false
      → values_of unmarshal items ≡ ok vs
      → (out : Bool × List A) × (take_page unmarshal total items results ≡ ok out)
        × IsPageEnd out results vs
  unfolding take_page values_of
  page_taken [] results vs open_yet e = (
    (false, results),
    refl,
    subst (IsPageEnd (false, results) results) (ground arith) (IsPageEnd-nil results open_yet),
  )
  page_taken (item ∷ items) results vs open_yet e =
      let (v, fine, chain) =
        >>=-eq-ok (unmarshal item) (λ v. values_of unmarshal items >>= λ ws. ok (v ∷ ws)) e in
      let (ws, rest, last) = >>=-eq-ok (values_of unmarshal items) (λ ws. ok (v ∷ ws)) chain in
      let whole : v ∷ ws ≡ vs = ground arith in
      elim (Bool-cases (is_full total (results ++ v ∷ []))) [
        | inl full ↦ (
          (true, results ++ v ∷ []),
          ground arith,
          subst (IsPageEnd (true, results ++ v ∷ []) results) whole
              (IsPageEnd-full results v ws open_yet full),
        )
        | inr not_full ↦
            let (out, taken, ends) = page_taken items (results ++ v ∷ []) ws not_full rest in
            (
              out,
              ground arith,
              subst (IsPageEnd out results) whole (IsPageEnd-cons out results v ws ends),
            )
      ]

  pub known_taken :
      (items : List Item) (results : List A)
      → is_full total results ≡ false
      → IsPageEnd (take_known unmarshal total items results) results (known_of unmarshal items)
  unfolding take_known known_of
  known_taken [] results open_yet = IsPageEnd-nil results open_yet
  known_taken (item ∷ items) results open_yet = elim (Result-cases (unmarshal item)) [
    | inr (x, unknown) ↦ rw (take_known, known_of, unknown) (known_taken items results open_yet)
    | inl (v, fine) ↦ elim (Bool-cases (is_full total (results ++ v ∷ []))) [
      | inl full ↦
          rw (take_known, known_of, fine, full)
            (IsPageEnd-full results v (known_of unmarshal items) open_yet full)
      | inr not_full ↦
          rw (take_known, known_of, fine, not_full)
            (IsPageEnd-cons (take_known unmarshal total items (results ++ v ∷ [])) results v
              (known_of unmarshal items) (known_taken items (results ++ v ∷ []) not_full))
    ]
  ]
