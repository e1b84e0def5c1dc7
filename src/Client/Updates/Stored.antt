-- ===== src/Client/Updates/Stored.antt =====
-- update.go: the placeholders of an update request.
use dynago.Prelude.{
  ℕ, suc, ◌<◌, ◌≡◌, ◌⊎◌, inl, inr, refl, sym, ap, ◌∙◌, List, [], ◌∷◌, Bytes, bytes, insert, Option,
  none, some, ok, ◌>>=◌, >>=-eq-ok, arith,
}
use mathlib.Core.Path.{subst}
use dynago.Attribute.{AttributeValue, no_attrs}
use dynago.Attribute.Items.{get_attr, set_attr}
use dynago.Backend.{UpdateItemRequest}
use dynago.Client.Values.{GoValue, Printers, any_to_attribute_value}
use dynago.Client.Keys.{KeyValue}
use dynago.Client.Conditions.Placeholder.{placeholder}
use dynago.Client.Conditions.Build.{ConditionExpr, alias_of, put_values}
use dynago.Client.Conditions.Aliases.{IsAliased, insert-IsAliased, put_names-IsAliased}
use dynago.Client.Conditions.Values.{IsStored, get_placeholder, get_placeholder_same}
use dynago.Client.Updates.Clauses.{
  UpdateClause, set_clause, add_clause, delete_clause, remove_clause, UpdateConfig, UpdateState,
  Action, action_set, action_add, action_delete, no_state, valued, removing, clause_step,
  clauses_from, unconditioned, conditioned, update_request, build_update_request,
}

-- The values of clauses, in order.
unfoldable pub clause_values : List UpdateClause → List GoValue
clause_values [] = []
clause_values (set_clause name v ∷ clauses) = v ∷ clause_values clauses
clause_values (add_clause name v ∷ clauses) = v ∷ clause_values clauses
clause_values (delete_clause name v ∷ clauses) = v ∷ clause_values clauses
clause_values (remove_clause name ∷ clauses) = clause_values clauses

module _ (P : Printers) where
  -- What a clause does to the names, and to the values.
  Stepped : UpdateClause → UpdateState → UpdateState → Type 0
  Stepped c st next =
      ((name : Bytes) × (next.names ≡ insert (alias_of name) name st.names))
      × (((cs : List UpdateClause) → clause_values (c ∷ cs) ≡ clause_values cs)
            × ((next.values ≡ st.values) × (next.value_idx ≡ st.value_idx))
          ⊎ ((v : GoValue) × (av : AttributeValue) × (((cs : List UpdateClause)
                  → clause_values (c ∷ cs) ≡ v ∷ clause_values cs)
                × ((any_to_attribute_value P v ≡ ok av)
                    × ((next.values ≡ set_attr (placeholder st.value_idx) av st.values)
                        × (next.value_idx ≡ suc st.value_idx))))))

  valued-Stepped :
      (c : UpdateClause) (action : Action) (name link : Bytes) (v : GoValue) (st next : UpdateState)
      → ((cs : List UpdateClause) → clause_values (c ∷ cs) ≡ v ∷ clause_values cs)
      → (any_to_attribute_value P v >>= λ av. ok (valued action name link av st)) ≡ ok next
      → Stepped c st next
  unfolding Stepped valued
  valued-Stepped c action name link v st next counted e =
      let (av, fine, last) =
        >>=-eq-ok (any_to_attribute_value P v) (λ av. ok (valued action name link av st)) e in
      let same : valued action name link av st ≡ next = ground (arith, last) in
      (
        (name, ap (λ (s : UpdateState). s.names) (sym same)),
        inr (
          v,
          av,
          (
            counted,
            (
              fine,
              (
                ap (λ (s : UpdateState). s.values) (sym same),
                ap (λ (s : UpdateState). s.value_idx) (sym same),
              ),
            ),
          ),
        ),
      )

  clause-Stepped :
      (c : UpdateClause) (st next : UpdateState) → clause_step P c st ≡ ok next → Stepped c st next
  unfolding clause_step clause_values Stepped removing
  clause-Stepped (set_clause name v) st next e =
      valued-Stepped (set_clause name v) action_set name (bytes " = ") v st next (λ cs. refl) e
  clause-Stepped (add_clause name v) st next e =
      valued-Stepped (add_clause name v) action_add name (bytes " ") v st next (λ cs. refl) e
  clause-Stepped (delete_clause name v) st next e =
      valued-Stepped (delete_clause name v) action_delete name (bytes " ") v st next (λ cs. refl) e
  clause-Stepped (remove_clause name) st next e =
      let same : removing name st ≡ next = ground (arith, e) in
      (
        (name, ap (λ (s : UpdateState). s.names) (sym same)),
        inl (
          (λ cs. refl),
          (
            ap (λ (s : UpdateState). s.values) (sym same),
            ap (λ (s : UpdateState). s.value_idx) (sym same),
          ),
        ),
      )

  clauses_from-IsAliased :
      (clauses : List UpdateClause) (st end : UpdateState)
      → clauses_from P clauses st ≡ ok end
      → IsAliased st.names
      → IsAliased end.names
  unfolding clauses_from Stepped
  clauses_from-IsAliased [] st end e h =
      let same : st ≡ end = ground (arith, e) in
      subst (λ (s : UpdateState). IsAliased s.names) same h
  clauses_from-IsAliased (c ∷ clauses) st end e h =
      let (next, fine, later) = >>=-eq-ok (clause_step P c st) (clauses_from P clauses) e in
      let ((name, names), rest) = clause-Stepped c st next fine in
      clauses_from-IsAliased clauses next end later
        (subst IsAliased (sym names) (insert-IsAliased (alias_of name) name st.names refl h))

  clauses_from-keeps :
      (clauses : List UpdateClause) (st end : UpdateState) (i : ℕ)
      → clauses_from P clauses st ≡ ok end
      → i < st.value_idx
      → get_attr (placeholder i) end.values ≡ get_attr (placeholder i) st.values
  unfolding clauses_from Stepped
  clauses_from-keeps [] st end i e below =
      let same : st ≡ end = ground (arith, e) in
      ap (λ (s : UpdateState). get_attr (placeholder i) s.values) (sym same)
  clauses_from-keeps (c ∷ clauses) st end i e below =
      let (next, fine, later) = >>=-eq-ok (clause_step P c st) (clauses_from P clauses) e in
      let (named, does) = clause-Stepped c st next fine in
      elim does [
        | inl (uncounted, (same, idx)) ↦
            clauses_from-keeps clauses next end i later (omega (arith, below, idx))
            ∙ ap (get_attr (placeholder i)) same
        | inr (v, av, (counted, (conv, (written, idx)))) ↦
            clauses_from-keeps clauses next end i later (omega (arith, below, idx))
            ∙ ap (get_attr (placeholder i)) written
            ∙ get_placeholder st.value_idx i av st.values below
      ]

  clauses_from-IsStored :
      (clauses : List UpdateClause) (st end : UpdateState)
      → clauses_from P clauses st ≡ ok end
      → IsStored P st.value_idx (clause_values clauses) end.values
  unfolding clauses_from Stepped clause_values
  clauses_from-IsStored [] st end e = tt
  clauses_from-IsStored (c ∷ clauses) st end e =
      let (next, fine, later) = >>=-eq-ok (clause_step P c st) (clauses_from P clauses) e in
      let (named, does) = clause-Stepped c st next fine in
      let rest = clauses_from-IsStored clauses next end later in
      elim does [
        | inl (uncounted, (same, idx)) ↦
            subst (λ l. IsStored P st.value_idx l end.values) (sym (uncounted clauses))
              (subst (λ n. IsStored P n (clause_values clauses) end.values) idx rest)
        | inr (v, av, (counted, (conv, (written, idx)))) ↦
            subst (λ l. IsStored P st.value_idx l end.values) (sym (counted clauses))
              (
                (
                  av,
                  conv,
                  clauses_from-keeps clauses next end st.value_idx later (omega (arith, idx))
                      ∙ ap (get_attr (placeholder st.value_idx)) written
                      ∙ get_placeholder_same st.value_idx av st.values,
                ),
                subst (λ n. IsStored P n (clause_values clauses) end.values) idx rest,
              )
      ]

  conditioned-IsAliased :
      (condition : Option ConditionExpr) (req : UpdateItemRequest)
      → ((c : ConditionExpr) → condition ≡ some c → IsAliased c.placeholders.names)
      → IsAliased req.placeholders.names
      → IsAliased (conditioned condition req).placeholders.names
  unfolding conditioned
  conditioned-IsAliased none req h g = g
  conditioned-IsAliased (some c) req h g =
      put_names-IsAliased c.placeholders.names req.placeholders.names (h c refl) g

  -- In an update request that is built, every name placeholder is '#' and the name it stands for, if
  -- this is so in the condition.
  build_update_request-IsAliased :
      (table_name : Bytes) (key : KeyValue) (cfg : UpdateConfig) (req : UpdateItemRequest)
      → ((c : ConditionExpr) → cfg.condition ≡ some c → IsAliased c.placeholders.names)
      → build_update_request P table_name key cfg ≡ ok req
      → IsAliased req.placeholders.names
  unfolding build_update_request update_request unconditioned
  build_update_request-IsAliased table_name key cfg req h e =
      let (st, done, last) =
        >>=-eq-ok (clauses_from P cfg.clauses no_state)
          (λ st. ok (update_request table_name key cfg.condition st)) e in
      let same : update_request table_name key cfg.condition st ≡ req = ground (arith, last) in
      subst (λ (r : UpdateItemRequest). IsAliased r.placeholders.names) same
        (conditioned-IsAliased cfg.condition (unconditioned table_name key st) h
          (clauses_from-IsAliased cfg.clauses no_state st done tt))

  conditioned-values :
      (condition : Option ConditionExpr) (req : UpdateItemRequest)
      → ((c : ConditionExpr) → condition ≡ some c → c.placeholders.values ≡ no_attrs)
      → (conditioned condition req).placeholders.values ≡ req.placeholders.values
  unfolding conditioned put_values
  conditioned-values none req h = refl
  conditioned-values (some c) req h =
      ap (λ more. put_values more req.placeholders.values) (h c refl)

  -- In an update request that is built, the placeholders :v0, :v1, ... hold the values of the clauses
  -- in their order, if the condition has no values of its own: it numbers them from :v0 on, too.
  pub build_update_request-IsStored :
      (table_name : Bytes) (key : KeyValue) (cfg : UpdateConfig) (req : UpdateItemRequest)
      → ((c : ConditionExpr) → cfg.condition ≡ some c → c.placeholders.values ≡ no_attrs)
      → build_update_request P table_name key cfg ≡ ok req
      → IsStored P 0 (clause_values cfg.clauses) req.placeholders.values
  unfolding build_update_request update_request unconditioned
  build_update_request-IsStored table_name key cfg req h e =
      let (st, done, last) =
        >>=-eq-ok (clauses_from P cfg.clauses no_state)
          (λ st. ok (update_request table_name key cfg.condition st)) e in
      let same : update_request table_name key cfg.condition st ≡ req = ground (arith, last) in
      subst
        (λ (r : UpdateItemRequest). IsStored P 0 (clause_values cfg.clauses) r.placeholders.values)
        same
        (subst (IsStored P 0 (clause_values cfg.clauses))
          (sym (conditioned-values cfg.condition (unconditioned table_name key st) h))
          (clauses_from-IsStored cfg.clauses no_state st done))
