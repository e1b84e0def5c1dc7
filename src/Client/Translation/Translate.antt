-- ===== src/Client/Translation/Translate.antt =====
-- internal/expr/translate.go: the translator, ToDynamo, ToDynamoUpdates and ToDynamoProjection. Words
-- that are reserved get the same alias as others.
use dynago.Prelude.{
  ℕ, suc, Bool, true, false, not, List, [], ◌∷◌, ◌++◌, Bytes, bytes, Assoc, lookup, insert, Option,
  none, some, ◌≟◌,
}
use dynago.Attribute.{AttributeValue, Item, no_attrs}
use dynago.Attribute.Items.{set_attr}
use dynago.Expr.Ast.{
  Node, Nodes, nil, compare_node, logical_node, func_node, path_node, value_node, update_node,
  projection_node, no_nodes, node, CompareOp, LogicalOp, UpdateAction,
}
use dynago.Expr.Floats.{format_int}
use dynago.Client.Conditions.Placeholder.{placeholder}
use dynago.Client.Conditions.Build.{alias_of, join}

-- translator
pub record Translator : Type 0 where
  pub names : Assoc Bytes
  pub values : Item
  pub name_idx : ℕ
  pub value_idx : ℕ
  pub name_cache : Assoc Bytes

abbrev pub new_translator : Translator
new_translator = record {
  names = [];
  values = no_attrs;
  name_idx = 0;
  value_idx = 0;
  name_cache = [];
}

unfoldable pub registered : Bytes → Bytes → Translator → Bytes × Translator
registered alias name t = (
  alias,
  record t { names = insert alias name t.names; name_cache = insert name alias t.name_cache },
)

-- Whether an alias stands for another name.
unfoldable pub is_taken : Bytes → Option Bytes → Bool
is_taken name none = false
is_taken name (some existing) = not (existing ≟ name)

-- aliasName
unfoldable pub alias_name : Bytes → Translator → Bytes × Translator
unfolding registered is_taken
alias_name name t = elim (lookup name t.name_cache) [
  | some alias ↦ (alias, t)
  | none ↦ elim (is_taken name (lookup (alias_of name) t.names)) [
    | true ↦
        registered (bytes "#n" ++ format_int t.name_idx) name
          (record t { name_idx = suc t.name_idx })
    | false ↦ registered (alias_of name) name t
  ]
]

-- aliasValue
unfoldable pub alias_value : AttributeValue → Translator → Bytes × Translator
alias_value val t = (
  placeholder t.value_idx,
  record t {
    values = set_attr (placeholder t.value_idx) val t.values;
    value_idx = suc t.value_idx;
  },
)

unfoldable pub alias_names : List Bytes → Translator → List Bytes × Translator
alias_names [] t = ([], t)
alias_names (part ∷ parts) t =
    let (alias, next) = alias_name part t in
    let (aliases, end) = alias_names parts next in (alias ∷ aliases, end)

-- translatePath
unfoldable pub translate_path : List Bytes → Translator → Bytes × Translator
unfolding alias_names join
translate_path parts t = let (aliases, end) = alias_names parts t in (join (bytes ".") aliases, end)

unfoldable pub compare_op_string : CompareOp → Bytes
compare_op_string CompareOp.eq = bytes "="
compare_op_string CompareOp.ne = bytes "<>"
compare_op_string CompareOp.lt = bytes "<"
compare_op_string CompareOp.le = bytes "<="
compare_op_string CompareOp.gt = bytes ">"
compare_op_string CompareOp.ge = bytes ">="

unfoldable pub update_action_string : UpdateAction → Bytes
update_action_string UpdateAction.set = bytes "SET"
update_action_string UpdateAction.add = bytes "ADD"
update_action_string UpdateAction.remove = bytes "REMOVE"
update_action_string UpdateAction.delete = bytes "DELETE"

unfoldable pub logical_text : LogicalOp → Bytes → Bytes → Bytes
logical_text LogicalOp.and left right = bytes "(" ++ left ++ bytes ") AND (" ++ right ++ bytes ")"
logical_text LogicalOp.or left right = bytes "(" ++ left ++ bytes ") OR (" ++ right ++ bytes ")"
logical_text LogicalOp.not left right = bytes "NOT (" ++ left ++ bytes ")"

-- The text of a clause behind its path, from the text of its value.
unfoldable pub clause_text : UpdateAction → Bytes → Bytes
clause_text UpdateAction.set val = bytes " = " ++ val
clause_text UpdateAction.add val = bytes " " ++ val
clause_text UpdateAction.delete val = bytes " " ++ val
clause_text UpdateAction.remove val = []

unfoldable pub translate_paths : List (List Bytes) → Translator → List Bytes × Translator
unfolding translate_path
translate_paths [] t = ([], t)
translate_paths (path ∷ paths) t =
    let (text, next) = translate_path path t in
    let (texts, end) = translate_paths paths next in (text ∷ texts, end)

-- translateProjection
unfoldable pub translate_projection : List (List Bytes) → Translator → Bytes × Translator
unfolding translate_paths join
translate_projection paths t =
    let (texts, end) = translate_paths paths t in (join (bytes ", ") texts, end)

unfoldable mutual
  unfolding translate_path translate_projection alias_value compare_op_string logical_text
      clause_text update_action_string join

  -- translateNode; the right operand of NOT and the value of REMOVE are nil, and translate to nothing
  pub translate_node : Node → Translator → Bytes × Translator
  translate_node nil t = ([], t)
  translate_node (compare_node l op r) t =
      let (left, next) = translate_node l t in
      let (right, end) = translate_node r next in
      (left ++ bytes " " ++ compare_op_string op ++ bytes " " ++ right, end)
  translate_node (logical_node LogicalOp.not l r) t =
      let (operand, end) = translate_node l t in (bytes "NOT (" ++ operand ++ bytes ")", end)
  translate_node (logical_node op l r) t =
      let (left, next) = translate_node l t in
      let (right, end) = translate_node r next in (logical_text op left right, end)
  translate_node (func_node name args) t =
      let (texts, end) = translate_nodes args t in
      (name ++ bytes "(" ++ join (bytes ", ") texts ++ bytes ")", end)
  translate_node (path_node parts) t = translate_path parts t
  translate_node (value_node v) t = alias_value v t
  translate_node (update_node UpdateAction.remove parts value) t =
      let (path, end) = translate_path parts t in (bytes "REMOVE " ++ path, end)
  translate_node (update_node action parts value) t =
      let (path, next) = translate_path parts t in
      let (val, end) = translate_node value next in
      (update_action_string action ++ bytes " " ++ path ++ clause_text action val, end)
  translate_node (projection_node paths) t = translate_projection paths t

  pub translate_nodes : Nodes → Translator → List Bytes × Translator
  translate_nodes no_nodes t = ([], t)
  translate_nodes (node n args) t =
      let (text, next) = translate_node n t in
      let (texts, end) = translate_nodes args next in (text ∷ texts, end)

-- ToDynamo: the text, the names and the values
unfoldable pub to_dynamo : Node → Bytes × (Assoc Bytes × Item)
unfolding translate_node
to_dynamo n = let (text, t) = translate_node n new_translator in (text, (t.names, t.values))

-- ToDynamoProjection
unfoldable pub to_dynamo_projection : List (List Bytes) → Bytes × Assoc Bytes
unfolding translate_projection
to_dynamo_projection paths =
    let (text, t) = translate_projection paths new_translator in (text, t.names)
