-- ===== src/Client/Translation/Named.antt =====
-- internal/expr/translate.go: the aliases of a translated expression.
use dynago.Prelude.{
  ◌≡◌, refl, sym, ap, ◌∙◌, false, List, [], ◌∷◌, Bytes, Assoc, lookup, insert, map, some, ◌≟◌,
  ≟_iff, either_way, Bool-cases, Option-cases, inl, inr, arith,
}
use dynago.Expr.Ast.{
  Node, Nodes, nil, compare_node, logical_node, func_node, path_node, value_node, update_node,
  projection_node, no_nodes, node, LogicalOp, UpdateAction,
}
use dynago.Client.Conditions.Build.{alias_of}
use dynago.Client.Conditions.Aliases.{IsAliased, insert-IsAliased, lookup-IsAliased}
use dynago.Client.Translation.Translate.{
  Translator, new_translator, registered, is_taken, alias_name, alias_value, alias_names,
  translate_path, translate_paths, translate_projection, translate_node, translate_nodes, to_dynamo,
}

-- Every cached alias is '#' and its name.
IsCached : Assoc Bytes → Type 0
IsCached [] = Unit
IsCached ((name, alias) ∷ cache) = (alias ≡ alias_of name) × IsCached cache

insert-IsCached :
    (name : Bytes) (cache : Assoc Bytes)
    → IsCached cache
    → IsCached (insert name (alias_of name) cache)
unfolding insert IsCached
insert-IsCached name [] h = (refl, tt)
insert-IsCached name ((j, w) ∷ cache) h =
    either_way IsCached (j ≟ name) ((name, alias_of name) ∷ cache)
      ((j, w) ∷ insert name (alias_of name) cache) (refl, h.1) (h.0, insert-IsCached name cache h.1)

lookup-IsCached :
    (name alias : Bytes) (cache : Assoc Bytes)
    → IsCached cache
    → lookup name cache ≡ some alias
    → alias ≡ alias_of name
unfolding lookup IsCached
lookup-IsCached name alias [] h e = cc
lookup-IsCached name alias ((j, w) ∷ cache) h e = elim (Bool-cases (j ≟ name)) [
  | inl same ↦
      let (there, back) = ≟_iff j name in
      let value : w ≡ alias = ground (arith, e, same) in sym value ∙ h.0 ∙ ap alias_of (there same)
  | inr other ↦ lookup-IsCached name alias cache h.1 (ground (arith, e, other))
]

-- What a translator keeps.
IsNamed : Translator → Type 0
IsNamed t = IsAliased t.names × IsCached t.name_cache

-- The numbered aliases are never needed.
not_taken :
    (name : Bytes) (names : Assoc Bytes)
    → IsAliased names
    → is_taken name (lookup (alias_of name) names) ≡ false
unfolding is_taken
not_taken name names h = elim (Option-cases (lookup (alias_of name) names)) [
  | inl absent ↦ rw absent refl
  | inr (existing, present) ↦
      let same : name ≡ existing =
        ground (arith, lookup-IsAliased (alias_of name) existing names h present) in
      let (there, back) = ≟_iff existing name in ground (arith, present, back (sym same))
]

alias_name-IsNamed :
    (name : Bytes) (t : Translator)
    → IsNamed t
    → ((alias_name name t).0 ≡ alias_of name) × IsNamed (alias_name name t).1
unfolding alias_name registered IsNamed
alias_name-IsNamed name t h = elim (Option-cases (lookup name t.name_cache)) [
  | inr (alias, cached) ↦
      rw (alias_name, cached) (lookup-IsCached name alias t.name_cache h.1 cached, h)
  | inl fresh ↦
      rw (alias_name, fresh, not_taken name t.names h.0)
        (
          refl,
          (
            insert-IsAliased (alias_of name) name t.names refl h.0,
            insert-IsCached name t.name_cache h.1,
          ),
        )
]

alias_names-IsNamed :
    (parts : List Bytes) (t : Translator)
    → IsNamed t
    → ((alias_names parts t).0 ≡ map (λ name. alias_of name) parts)
      × IsNamed (alias_names parts t).1
unfolding alias_names
alias_names-IsNamed [] t h = (refl, h)
alias_names-IsNamed (part ∷ parts) t h =
    let (alias, next) = alias_name-IsNamed part t h in
    let (aliases, end) = alias_names-IsNamed parts (alias_name part t).1 next in
    (
      ap (λ a. a ∷ (alias_names parts (alias_name part t).1).0) alias
          ∙ ap (alias_of part ∷◌) aliases,
      end,
    )

translate_paths-IsNamed :
    (paths : List (List Bytes)) (t : Translator) → IsNamed t → IsNamed (translate_paths paths t).1
unfolding translate_paths translate_path
translate_paths-IsNamed [] t h = h
translate_paths-IsNamed (path ∷ paths) t h =
    translate_paths-IsNamed paths (alias_names path t).1 (alias_names-IsNamed path t h).1

mutual
  unfolding translate_node translate_path translate_projection alias_value IsNamed

  translate_node-IsNamed : (n : Node) (t : Translator) → IsNamed t → IsNamed (translate_node n t).1
  translate_node-IsNamed nil t h = h
  translate_node-IsNamed (compare_node l op r) t h =
      translate_node-IsNamed r (translate_node l t).1 (translate_node-IsNamed l t h)
  translate_node-IsNamed (logical_node LogicalOp.not l r) t h = translate_node-IsNamed l t h
  translate_node-IsNamed (logical_node LogicalOp.and l r) t h =
      translate_node-IsNamed r (translate_node l t).1 (translate_node-IsNamed l t h)
  translate_node-IsNamed (logical_node LogicalOp.or l r) t h =
      translate_node-IsNamed r (translate_node l t).1 (translate_node-IsNamed l t h)
  translate_node-IsNamed (func_node name args) t h = translate_nodes-IsNamed args t h
  translate_node-IsNamed (path_node parts) t h = (alias_names-IsNamed parts t h).1
  translate_node-IsNamed (value_node v) t h = h
  translate_node-IsNamed (update_node UpdateAction.remove parts value) t h =
      (alias_names-IsNamed parts t h).1
  translate_node-IsNamed (update_node UpdateAction.set parts value) t h =
      translate_node-IsNamed value (alias_names parts t).1 (alias_names-IsNamed parts t h).1
  translate_node-IsNamed (update_node UpdateAction.add parts value) t h =
      translate_node-IsNamed value (alias_names parts t).1 (alias_names-IsNamed parts t h).1
  translate_node-IsNamed (update_node UpdateAction.delete parts value) t h =
      translate_node-IsNamed value (alias_names parts t).1 (alias_names-IsNamed parts t h).1
  translate_node-IsNamed (projection_node paths) t h = translate_paths-IsNamed paths t h

  translate_nodes-IsNamed :
      (args : Nodes) (t : Translator) → IsNamed t → IsNamed (translate_nodes args t).1
  translate_nodes-IsNamed no_nodes t h = h
  translate_nodes-IsNamed (node n args) t h =
      translate_nodes-IsNamed args (translate_node n t).1 (translate_node-IsNamed n t h)

-- In the translation of any expression every name placeholder is '#' and the name it stands for, so
-- that the numbered aliases for names in conflict are never used.
pub to_dynamo-IsAliased : (n : Node) → IsAliased (to_dynamo n).1.0
unfolding to_dynamo IsNamed IsCached
to_dynamo-IsAliased n = (translate_node-IsNamed n new_translator (tt, tt)).0
