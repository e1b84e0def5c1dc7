-- ===== src/Client/Translation/Values.antt =====
-- internal/expr/translate.go: the values of a translated expression, also of one that ParseCondition
-- made.
use dynago.Prelude.{
  ℕ, suc, ◌<◌, ◌≡◌, refl, sym, ap, ◌∙◌, List, [], ◌∷◌, ◌++◌, Bytes, map, some, arith, ok, lookup,
  Bool-cases, Option-cases, inl, inr,
}
use mathlib.Core.Path.{subst}
use dynago.Attribute.{AttributeValue, Item, no_attrs}
use dynago.Attribute.Items.{get_attr, set_attr}
use dynago.Expr.Ast.{
  Node, Nodes, nil, compare_node, logical_node, func_node, path_node, value_node, update_node,
  projection_node, no_nodes, node, LogicalOp, UpdateAction,
}
use dynago.Client.Builder.{parse_condition}
use dynago.Client.Builder.Arguments.{node_values-parse_condition}
use dynago.Client.Builder.Takes.{node_values, nodes_values}
use dynago.Client.Conditions.Build.{alias_of}
use dynago.Client.Conditions.Placeholder.{placeholder}
use dynago.Client.Conditions.Values.{get_placeholder, get_placeholder_same}
use dynago.Client.Translation.Translate.{
  Translator, new_translator, registered, is_taken, alias_name, alias_value, alias_names,
  translate_path, translate_paths, translate_projection, translate_node, translate_nodes, to_dynamo,
}
use dynago.Client.Values.{GoValue, Printers, go_to_attribute_value}

-- The values of a translator and the number of the next placeholder.
abbrev Counted : Type 0
Counted = Item × ℕ

counted_of : Translator → Counted
counted_of t = (t.values, t.value_idx)

-- Values under the next placeholders.
counting : List AttributeValue → Counted → Counted
counting [] c = c
counting (v ∷ vs) (m, i) = counting vs (set_attr (placeholder i) v m, suc i)

counting-append :
    (vs ws : List AttributeValue) (c : Counted)
    → counting (vs ++ ws) c ≡ counting ws (counting vs c)
unfolding counting
counting-append [] ws c = refl
counting-append (v ∷ vs) ws (m, i) = counting-append vs ws (set_attr (placeholder i) v m, suc i)

alias_name_keeps : (name : Bytes) (t : Translator) → counted_of (alias_name name t).1 ≡ counted_of t
unfolding alias_name registered counted_of
alias_name_keeps name t = elim (Option-cases (lookup name t.name_cache)) [
  | inr (alias, cached) ↦ rw (alias_name, cached) refl
  | inl fresh ↦ elim (Bool-cases (is_taken name (lookup (alias_of name) t.names))) [
    | inl taken ↦ rw (alias_name, fresh, taken) refl
    | inr free ↦ rw (alias_name, fresh, free) refl
  ]
]

alias_names_keep :
    (parts : List Bytes) (t : Translator) → counted_of (alias_names parts t).1 ≡ counted_of t
unfolding alias_names
alias_names_keep [] t = refl
alias_names_keep (part ∷ parts) t =
    alias_names_keep parts (alias_name part t).1 ∙ alias_name_keeps part t

translate_paths_keep :
    (paths : List (List Bytes)) (t : Translator)
    → counted_of (translate_paths paths t).1 ≡ counted_of t
unfolding translate_paths translate_path
translate_paths_keep [] t = refl
translate_paths_keep (path ∷ paths) t =
    translate_paths_keep paths (alias_names path t).1 ∙ alias_names_keep path t

-- Two parts that are translated one after the other.
then_counting :
    (vs ws : List AttributeValue) (b c d : Counted)
    → c ≡ counting vs b
    → d ≡ counting ws c
    → d ≡ counting (vs ++ ws) b
then_counting vs ws b c d e f = f ∙ ap (counting ws) e ∙ sym (counting-append vs ws b)

mutual
  unfolding translate_node translate_path translate_projection alias_value counted_of counting
      node_values

  node_counts :
      (n : Node) (t : Translator)
      → counted_of (translate_node n t).1 ≡ counting (node_values n) (counted_of t)
  node_counts nil t = refl
  node_counts (compare_node l op r) t =
      then_counting (node_values l) (node_values r) _ _ _ (node_counts l t)
        (node_counts r (translate_node l t).1)
  node_counts (logical_node LogicalOp.not l r) t = node_counts l t
  node_counts (logical_node LogicalOp.and l r) t =
      then_counting (node_values l) (node_values r) _ _ _ (node_counts l t)
        (node_counts r (translate_node l t).1)
  node_counts (logical_node LogicalOp.or l r) t =
      then_counting (node_values l) (node_values r) _ _ _ (node_counts l t)
        (node_counts r (translate_node l t).1)
  node_counts (func_node name args) t = nodes_count args t
  node_counts (path_node parts) t = alias_names_keep parts t
  node_counts (value_node v) t = refl
  node_counts (update_node UpdateAction.remove parts value) t = alias_names_keep parts t
  node_counts (update_node UpdateAction.set parts value) t =
      then_counting [] (node_values value) _ _ _ (alias_names_keep parts t)
        (node_counts value (alias_names parts t).1)
  node_counts (update_node UpdateAction.add parts value) t =
      then_counting [] (node_values value) _ _ _ (alias_names_keep parts t)
        (node_counts value (alias_names parts t).1)
  node_counts (update_node UpdateAction.delete parts value) t =
      then_counting [] (node_values value) _ _ _ (alias_names_keep parts t)
        (node_counts value (alias_names parts t).1)
  node_counts (projection_node paths) t = translate_paths_keep paths t

  nodes_count :
      (args : Nodes) (t : Translator)
      → counted_of (translate_nodes args t).1 ≡ counting (nodes_values args) (counted_of t)
  nodes_count no_nodes t = refl
  nodes_count (node n args) t =
      then_counting (node_values n) (nodes_values args) _ _ _ (node_counts n t)
        (nodes_count args (translate_node n t).1)

-- The placeholders from :vn on hold the values of a list, in order.
abbrev AreStored : ℕ → List AttributeValue → Item → Type 0
AreStored n [] m = Unit
AreStored n (v ∷ vs) m = (get_attr (placeholder n) m ≡ some v) × AreStored (suc n) vs m

-- Values under later placeholders leave the ones before.
counting_keeps :
    (vs : List AttributeValue) (m : Item) (n i : ℕ)
    → i < n
    → get_attr (placeholder i) (counting vs (m, n)).0 ≡ get_attr (placeholder i) m
unfolding counting
counting_keeps [] m n i below = refl
counting_keeps (v ∷ vs) m n i below =
    counting_keeps vs (set_attr (placeholder n) v m) (suc n) i (omega (arith, below))
    ∙ get_placeholder n i v m below

counting-AreStored :
    (vs : List AttributeValue) (m : Item) (n : ℕ) → AreStored n vs (counting vs (m, n)).0
unfolding counting
counting-AreStored [] m n = tt
counting-AreStored (v ∷ vs) m n = (
  counting_keeps vs (set_attr (placeholder n) v m) (suc n) n (omega arith)
      ∙ get_placeholder_same n v m,
  counting-AreStored vs (set_attr (placeholder n) v m) (suc n),
)

-- In the translation of any expression, the placeholders :v0, :v1 and so on hold its values, in their
-- order from left to right.
to_dynamo-AreStored : (n : Node) → AreStored 0 (node_values n) (to_dynamo n).1.1
unfolding to_dynamo counted_of
to_dynamo-AreStored n =
    subst (AreStored 0 (node_values n)) (sym (ap (λ c. c.0) (node_counts n new_translator)))
      (counting-AreStored (node_values n) no_attrs 0)

module _ (P : Printers) where
  -- The placeholders from :vn on hold the arguments of a list, in order.
  abbrev pub HoldArguments : ℕ → List GoValue → Item → Type 0
  HoldArguments n [] m = Unit
  HoldArguments n (v ∷ vals) m =
      ((av : AttributeValue) × (go_to_attribute_value P v ≡ ok av)
        × (get_attr (placeholder n) m ≡ some av))
      × HoldArguments (suc n) vals m

  converted :
      (args : List GoValue) (vs : List AttributeValue) (m : Item) (n : ℕ)
      → map (go_to_attribute_value P) args ≡ map ok vs
      → AreStored n vs m
      → HoldArguments n args m
  converted [] vs m n e stored = tt
  converted (v ∷ args) [] m n e stored = cc
  converted (v ∷ args) (w ∷ vs) m n e (here, stored) =
      let first : go_to_attribute_value P v ≡ ok w = cc e in
      let rest : map (go_to_attribute_value P) args ≡ map ok vs = cc e in
      ((w, first, here), converted args vs m (suc n) rest stored)

  -- If ParseCondition succeeds, every argument converts to an attribute value, and in the translation
  -- of the tree the placeholders :v0, :v1 and so on hold the arguments in their order.
  pub to_dynamo-parse_condition-HoldArguments :
      (text : Bytes) (args : List GoValue) (tree : Node)
      → parse_condition P text args ≡ ok tree
      → HoldArguments 0 args (to_dynamo tree).1.1
  to_dynamo-parse_condition-HoldArguments text args tree h =
      converted args (node_values tree) (to_dynamo tree).1.1 0
        (node_values-parse_condition P text args tree h) (to_dynamo-AreStored tree)
