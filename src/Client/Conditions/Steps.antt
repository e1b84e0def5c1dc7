-- ===== src/Client/Conditions/Steps.antt =====
-- condition.go: the steps of a translation that succeeds.
use dynago.Prelude.{
  ◌≡◌, ◌⊎◌, inl, inr, refl, sym, ap, List, [], ◌∷◌, Bytes, to_upper, Result-cases, Result, ok, err,
  >>=-eq-ok, arith,
}
use dynago.Attribute.{AttributeValue, no_attrs}
use dynago.Memdb.Parsing.{Placeholders}
use dynago.Client.Conditions.Tokens.{cond_tokens}
use dynago.Client.Values.{GoValue, Printers, any_to_attribute_value}
use dynago.Client.Conditions.Placeholder.{placeholder}
use dynago.Client.Conditions.Build.{
  ConditionExpr, CondBuilder, no_builder, built, build_condition, TokenKind, alias_of, kind_of,
  emit, name_added, value_added, translate_from, keyword, passed, value_mark, function_name,
  attribute_name,
}

kind-cases :
    (k : TokenKind)
    → (k ≡ keyword)
      ⊎ ((k ≡ passed) ⊎ ((k ≡ value_mark) ⊎ ((k ≡ function_name) ⊎ (k ≡ attribute_name))))
kind-cases keyword = inl refl
kind-cases passed = inr (inl refl)
kind-cases value_mark = inr (inr (inl refl))
kind-cases function_name = inr (inr (inr (inl refl)))
kind-cases attribute_name = inr (inr (inr (inr refl)))

emit-ok :
    (tok : Bytes) (r : Result (List Bytes × CondBuilder)) (out : List Bytes) (cb : CondBuilder)
    → emit tok r ≡ ok (out, cb)
    → (rest : List Bytes) × (r ≡ ok (rest, cb))
unfolding emit
emit-ok tok (err e) out cb h = cc
emit-ok tok (ok (rest, b)) out cb h = (rest, ground (arith, h))

placeholders_of : Result ConditionExpr → Placeholders
placeholders_of (ok c) = c.placeholders
placeholders_of (err e) = record { names = []; values = no_attrs }

-- A plain token, a name, or a value.
abbrev pub Step : Printers → Bytes → List Bytes → List GoValue → CondBuilder → CondBuilder → Type 0
Step P tok toks vals cb end =
    ((rest : List Bytes) × (translate_from P toks vals cb ≡ ok (rest, end)))
    ⊎ (((rest : List Bytes) × (translate_from P toks vals (name_added tok cb) ≡ ok (rest, end)))
        ⊎ ((v : GoValue) × (vs : List GoValue) × (av : AttributeValue) × (rest : List Bytes)
            × ((vals ≡ v ∷ vs)
                × ((any_to_attribute_value P v ≡ ok av)
                    × (translate_from P toks vs (value_added av cb) ≡ ok (rest, end))))))

module _ (P : Printers) where
  pub translate_end :
      (vals : List GoValue) (cb : CondBuilder) (out : List Bytes) (end : CondBuilder)
      → translate_from P [] vals cb ≡ ok (out, end)
      → (vals ≡ []) × (cb ≡ end)
  unfolding translate_from
  translate_end [] cb out end e = (refl, ground (arith, e))
  translate_end (v ∷ vals) cb out end e = cc

  value-Step :
      (tok : Bytes) (toks : List Bytes) (vals : List GoValue) (cb : CondBuilder) (out : List Bytes)
      (end : CondBuilder)
      → translate_from P (tok ∷ toks) vals cb ≡ ok (out, end)
      → kind_of tok toks ≡ value_mark
      → Step P tok toks vals cb end
  unfolding translate_from
  value-Step tok toks [] cb out end e k = absurd (ground (arith, e, k))
  value-Step tok toks (v ∷ vs) cb out end e k = elim (Result-cases (any_to_attribute_value P v)) [
    | inr (x, bad) ↦ absurd (ground (arith, e, k, bad))
    | inl (av, fine) ↦
        let (rest, later) =
          emit-ok (placeholder cb.value_idx) (translate_from P toks vs (value_added av cb)) out end
            (ground (arith, e, k, fine)) in
        inr (inr (v, vs, av, rest, (refl, (fine, later))))
  ]

  pub translate-Step :
      (tok : Bytes) (toks : List Bytes) (vals : List GoValue) (cb : CondBuilder) (out : List Bytes)
      (end : CondBuilder)
      → translate_from P (tok ∷ toks) vals cb ≡ ok (out, end)
      → Step P tok toks vals cb end
  unfolding translate_from
  translate-Step tok toks vals cb out end e = elim (kind-cases (kind_of tok toks)) [
    | inl k ↦
        inl (emit-ok (to_upper tok) (translate_from P toks vals cb) out end (ground (arith, e, k)))
    | inr (inl k) ↦ inl (emit-ok tok (translate_from P toks vals cb) out end (ground (arith, e, k)))
    | inr (inr (inl k)) ↦ value-Step tok toks vals cb out end e k
    | inr (inr (inr (inl k))) ↦
        inl (emit-ok tok (translate_from P toks vals cb) out end (ground (arith, e, k)))
    | inr (inr (inr (inr k))) ↦ inr (
        inl (
          emit-ok (alias_of tok) (translate_from P toks vals (name_added tok cb)) out end
            (ground (arith, e, k))))
  ]

  pub build_done :
      (text : Bytes) (vals : List GoValue) (c : ConditionExpr)
      → build_condition P text vals ≡ ok c
      → (out : List Bytes) × (cb : CondBuilder) × ((translate_from P
              (cond_tokens text)
              vals
              no_builder
            ≡ ok (out, cb))
          × (c.placeholders ≡ record { names = cb.names; values = cb.values }))
  unfolding build_condition built placeholders_of
  build_done text vals c e =
      let (done, fine, last) =
        >>=-eq-ok (translate_from P (cond_tokens text) vals no_builder) built e in
      (done.0, done.1, (fine, ap placeholders_of (sym last)))
