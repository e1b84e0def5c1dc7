-- ===== src/Client/Conditions/Aliases.antt =====
-- condition.go: the names of a built condition.
use dynago.Prelude.{
  ◌≡◌, refl, sym, ap, ◌∙◌, List, [], ◌∷◌, Bytes, Assoc, lookup, insert, ◌≟◌, ≟_iff, Bool-cases,
  either_way, inl, inr, some, ok, arith, lookup-insert, if_yes, if_no, ◌⊎◌,
}
use mathlib.Core.Path.{subst}
use dynago.Memdb.Parsing.{Placeholders}
use dynago.Client.Values.{GoValue, Printers}
use dynago.Client.Conditions.Tokens.{cond_tokens}
use dynago.Client.Conditions.Steps.{translate_end, translate-Step, build_done}
use dynago.Client.Conditions.Build.{
  no_builder, ConditionExpr, CondBuilder, alias_of, put_names, name_added, value_added,
  translate_from, build_condition, merge_conditions,
}

-- Every placeholder of a name is '#' and the name.
abbrev pub IsAliased : Assoc Bytes → Type 0
IsAliased [] = Unit
IsAliased ((k, v) ∷ names) = (k ≡ b'#' ∷ v) × IsAliased names

pub insert-IsAliased :
    (k v : Bytes) (names : Assoc Bytes)
    → k ≡ alias_of v
    → IsAliased names
    → IsAliased (insert k v names)
unfolding insert
insert-IsAliased k v [] e h = (e, tt)
insert-IsAliased k v ((j, w) ∷ names) e h =
    either_way IsAliased (j ≟ k) ((k, v) ∷ names) ((j, w) ∷ insert k v names) (e, h.1)
      (h.0, insert-IsAliased k v names e h.1)

pub put_names-IsAliased :
    (more into : Assoc Bytes) → IsAliased more → IsAliased into → IsAliased (put_names more into)
unfolding put_names
put_names-IsAliased [] into h g = g
put_names-IsAliased ((k, v) ∷ more) into h g =
    put_names-IsAliased more (insert k v into) h.1 (insert-IsAliased k v into h.0 g)

-- What an alias stands for is then fixed: the name behind the '#'.
pub lookup-IsAliased :
    (k v : Bytes) (names : Assoc Bytes) → IsAliased names → lookup k names ≡ some v → k ≡ alias_of v
unfolding lookup
lookup-IsAliased k v [] h e = cc
lookup-IsAliased k v ((j, w) ∷ names) h e = elim (Bool-cases (j ≟ k)) [
  | inl same ↦
      let (there, back) = ≟_iff j k in
      let value : w ≡ v = ground (arith, e, same) in sym (there same) ∙ h.0 ∙ ap alias_of value
  | inr other ↦ lookup-IsAliased k v names h.1 (ground (arith, e, other))
]

module _ (P : Printers) where
  translated-IsAliased :
      (toks : List Bytes) (vals : List GoValue) (cb : CondBuilder) (out : List Bytes)
      (end : CondBuilder)
      → translate_from P toks vals cb ≡ ok (out, end)
      → IsAliased cb.names
      → IsAliased end.names
  unfolding name_added value_added
  translated-IsAliased [] vals cb out end e h =
      let (none_left, same) = translate_end P vals cb out end e in
      subst (λ (b : CondBuilder). IsAliased b.names) {y = end} same h
  translated-IsAliased (tok ∷ toks) vals cb out end e h =
      elim (translate-Step P tok toks vals cb out end e) [
        | inl (rest, later) ↦ translated-IsAliased toks vals cb rest end later h
        | inr (inl (rest, later)) ↦
            translated-IsAliased toks vals (name_added tok cb) rest end later
              (insert-IsAliased (alias_of tok) tok cb.names refl h)
        | inr (inr (v, vs, av, rest, (taken, (fine, later)))) ↦
            translated-IsAliased toks vs (value_added av cb) rest end later h
      ]

  -- Every name placeholder of a condition that is built is '#' and the name it stands for.
  pub build_condition-IsAliased :
      (text : Bytes) (vals : List GoValue) (c : ConditionExpr)
      → build_condition P text vals ≡ ok c
      → IsAliased c.placeholders.names
  build_condition-IsAliased text vals c e =
      let (out, cb, (done, made)) = build_done P text vals c e in
      subst (λ (x : Placeholders). IsAliased x.names) {y = c.placeholders} (sym made)
        (translated-IsAliased (cond_tokens text) vals no_builder out cb done tt)

-- What a placeholder stands for is the same after another name with its placeholder is put in.
lookup-insert_alias :
    (j w k v : Bytes) (names : Assoc Bytes)
    → j ≡ b'#' ∷ w
    → IsAliased names
    → lookup k names ≡ some v
    → lookup k (insert j w names) ≡ some v
lookup-insert_alias j w k v names e h found = elim (Bool-cases (j ≟ k)) [
  | inr other ↦ lookup-insert j k w names ∙ if_no (j ≟ k) (some w) (lookup k names) other ∙ found
  | inl same ↦
      let whole : b'#' ∷ w ≡ b'#' ∷ v =
        sym e ∙ (≟_iff j k).0 same ∙ lookup-IsAliased k v names h found in
      let name : w ≡ v = cc whole in
      lookup-insert j k w names ∙ if_yes (j ≟ k) (some w) (lookup k names) same ∙ ap some name
]

lookup-put_names_into :
    (more into : Assoc Bytes) (k v : Bytes)
    → IsAliased more
    → IsAliased into
    → lookup k into ≡ some v
    → lookup k (put_names more into) ≡ some v
unfolding put_names
lookup-put_names_into [] into k v h g found = found
lookup-put_names_into ((j, w) ∷ more) into k v h g found =
    lookup-put_names_into more (insert j w into) k v h.1 (insert-IsAliased j w into h.0 g)
      (lookup-insert_alias j w k v into h.0 g found)

lookup-put_names :
    (more into : Assoc Bytes) (k v : Bytes)
    → IsAliased more
    → IsAliased into
    → lookup k more ≡ some v
    → lookup k (put_names more into) ≡ some v
unfolding put_names lookup
lookup-put_names [] into k v h g found = cc found
lookup-put_names ((j, w) ∷ more) into k v h g found = elim (Bool-cases (j ≟ k)) [
  | inr other ↦
      lookup-put_names more (insert j w into) k v h.1 (insert-IsAliased j w into h.0 g)
        (sym (if_no (j ≟ k) (some w) (lookup k more) other) ∙ found)
  | inl same ↦
      let first : lookup k (insert j w into) ≡ some v =
        lookup-insert j k w into
        ∙ if_yes (j ≟ k) (some w) (lookup k into) same
        ∙ sym (if_yes (j ≟ k) (some w) (lookup k more) same)
        ∙ found in
      lookup-put_names_into more (insert j w into) k v h.1 (insert-IsAliased j w into h.0 g) first
]

-- Merging two conditions that are built loses and changes no name: what a placeholder stands for in
-- either of them it stands for in the merged condition.
pub merge_conditions-build_condition :
    (P : Printers) (text_a text_b : Bytes) (vals_a vals_b : List GoValue) (a b : ConditionExpr)
    (k v : Bytes)
    → build_condition P text_a vals_a ≡ ok a
    → build_condition P text_b vals_b ≡ ok b
    → (lookup k a.placeholders.names ≡ some v) ⊎ (lookup k b.placeholders.names ≡ some v)
    → lookup k (merge_conditions a b).placeholders.names ≡ some v
unfolding merge_conditions
merge_conditions-build_condition P text_a text_b vals_a vals_b a b k v made_a made_b found =
    let h = build_condition-IsAliased P text_a vals_a a made_a in
    let g = build_condition-IsAliased P text_b vals_b b made_b in
    let kept = put_names-IsAliased a.placeholders.names [] h tt in
    elim found [
      | inl in_a ↦
          lookup-put_names_into b.placeholders.names (put_names a.placeholders.names []) k v g kept
            (lookup-put_names a.placeholders.names [] k v h tt in_a)
      | inr in_b ↦
          lookup-put_names b.placeholders.names (put_names a.placeholders.names []) k v g kept in_b
    ]

pub merge_conditions-IsAliased :
    (a b : ConditionExpr)
    → IsAliased a.placeholders.names
    → IsAliased b.placeholders.names
    → IsAliased (merge_conditions a b).placeholders.names
unfolding merge_conditions
merge_conditions-IsAliased a b h g =
    put_names-IsAliased b.placeholders.names (put_names a.placeholders.names []) g
      (put_names-IsAliased a.placeholders.names [] h tt)
