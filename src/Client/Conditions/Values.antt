-- ===== src/Client/Conditions/Values.antt =====
-- condition.go: the values of a built condition.
use dynago.Prelude.{
  ℕ, suc, ◌<◌, ◌≡◌, refl, sym, ap, ◌∙◌, List, [], ◌∷◌, Bytes, some, ◌≟◌, ≟_iff, Bool-cases, inl,
  inr, ok, arith,
}
use mathlib.Core.Path.{subst}
use dynago.Attribute.{AttributeValue, Item}
use dynago.Attribute.Items.{get_attr, set_attr, get_attr-set_attr}
use dynago.Memdb.Parsing.{Placeholders}
use dynago.Client.Values.{GoValue, Printers, any_to_attribute_value}
use dynago.Client.Conditions.Placeholder.{placeholder, placeholder-injective}
use dynago.Client.Conditions.Tokens.{cond_tokens}
use dynago.Client.Conditions.Build.{
  ConditionExpr, CondBuilder, no_builder, name_added, value_added, translate_from, build_condition,
}
use dynago.Client.Conditions.Steps.{translate_end, translate-Step, build_done}

pub get_placeholder :
    (n i : ℕ) (av : AttributeValue) (m : Item)
    → i < n
    → get_attr (placeholder i) (set_attr (placeholder n) av m) ≡ get_attr (placeholder i) m
get_placeholder n i av m below = elim (Bool-cases (placeholder n ≟ placeholder i)) [
  | inl same ↦
      let (there, back) = ≟_iff (placeholder n) (placeholder i) in
      absurd (omega (arith, below, placeholder-injective n i (there same)))
  | inr other ↦ ground (arith, get_attr-set_attr (placeholder n) (placeholder i) av m, other)
]

pub get_placeholder_same :
    (n : ℕ) (av : AttributeValue) (m : Item)
    → get_attr (placeholder n) (set_attr (placeholder n) av m) ≡ some av
get_placeholder_same n av m =
    let (there, back) = ≟_iff (placeholder n) (placeholder n) in
    ground (arith, get_attr-set_attr (placeholder n) (placeholder n) av m, back refl)

module _ (P : Printers) where
  -- The placeholders from :vn on hold the values of a list, in order.
  abbrev pub IsStored : ℕ → List GoValue → Item → Type 0
  IsStored n [] m = Unit
  IsStored n (v ∷ vals) m =
      ((av : AttributeValue) × (any_to_attribute_value P v ≡ ok av)
        × (get_attr (placeholder n) m ≡ some av))
      × IsStored (suc n) vals m

  keeps_values :
      (toks : List Bytes) (vals : List GoValue) (cb : CondBuilder) (out : List Bytes)
      (end : CondBuilder) (i : ℕ)
      → translate_from P toks vals cb ≡ ok (out, end)
      → i < cb.value_idx
      → get_attr (placeholder i) end.values ≡ get_attr (placeholder i) cb.values
  unfolding name_added value_added
  keeps_values [] vals cb out end i e below =
      let (none_left, same) = translate_end P vals cb out end e in
      ap (λ (b : CondBuilder). get_attr (placeholder i) b.values) (sym same)
  keeps_values (tok ∷ toks) vals cb out end i e below =
      elim (translate-Step P tok toks vals cb out end e) [
        | inl (rest, later) ↦ keeps_values toks vals cb rest end i later below
        | inr (inl (rest, later)) ↦
            keeps_values toks vals (name_added tok cb) rest end i later below
        | inr (inr (v, vs, av, rest, (taken, (fine, later)))) ↦
            keeps_values toks vs (value_added av cb) rest end i later (omega (arith, below))
            ∙ get_placeholder cb.value_idx i av cb.values below
      ]

  stores_values :
      (toks : List Bytes) (vals : List GoValue) (cb : CondBuilder) (out : List Bytes)
      (end : CondBuilder)
      → translate_from P toks vals cb ≡ ok (out, end)
      → IsStored cb.value_idx vals end.values
  unfolding name_added value_added
  stores_values [] vals cb out end e =
      let (none_left, same) = translate_end P vals cb out end e in
      subst (λ l. IsStored cb.value_idx l end.values) {y = vals} (sym none_left) tt
  stores_values (tok ∷ toks) vals cb out end e =
      elim (translate-Step P tok toks vals cb out end e) [
        | inl (rest, later) ↦ stores_values toks vals cb rest end later
        | inr (inl (rest, later)) ↦ stores_values toks vals (name_added tok cb) rest end later
        | inr (inr (v, vs, av, rest, (taken, (fine, later)))) ↦
            subst (λ l. IsStored cb.value_idx l end.values) {y = vals} (sym taken)
              (
                (
                  av,
                  fine,
                  keeps_values toks vs (value_added av cb) rest end cb.value_idx later (omega arith)
                      ∙ get_placeholder_same cb.value_idx av cb.values,
                ),
                stores_values toks vs (value_added av cb) rest end later,
              )
      ]

  -- In a condition that is built every given value is used: the placeholders :v0, :v1, ... hold the
  -- values of the call in their order.
  pub build_condition-IsStored :
      (text : Bytes) (vals : List GoValue) (c : ConditionExpr)
      → build_condition P text vals ≡ ok c
      → IsStored 0 vals c.placeholders.values
  build_condition-IsStored text vals c e =
      let (out, cb, (done, made)) = build_done P text vals c e in
      subst (λ (x : Placeholders). IsStored 0 vals x.values) {y = c.placeholders} (sym made)
        (stores_values (cond_tokens text) vals no_builder out cb done)
