-- ===== src/Client/Translation/Updates.antt =====
-- internal/expr/translate.go: ToDynamoUpdates.
use dynago.Prelude.{Bool, true, false, List, [], ◌∷◌, ◌++◌, Bytes, bytes, Assoc, map, if◌then◌else◌}
use dynago.Attribute.{Item}
use dynago.Expr.Ast.{Node, UpdateAction}
use dynago.Client.Conditions.Build.{join}
use dynago.Client.Translation.Translate.{
  Translator, new_translator, translate_path, translate_node, clause_text, update_action_string,
}

-- UpdateNode
pub record Update : Type 0 where
  pub action : UpdateAction
  pub path : List Bytes
  pub value : Node

-- The clause of an update; REMOVE has no value.
unfoldable pub translate_clause : UpdateAction → List Bytes → Node → Translator → Bytes × Translator
unfolding translate_path translate_node clause_text
translate_clause UpdateAction.remove path value t = translate_path path t
translate_clause action path value t =
    let (text, next) = translate_path path t in
    let (val, end) = translate_node value next in (text ++ clause_text action val, end)

is_action : UpdateAction → UpdateAction → Bool
is_action UpdateAction.set UpdateAction.set = true
is_action UpdateAction.add UpdateAction.add = true
is_action UpdateAction.remove UpdateAction.remove = true
is_action UpdateAction.delete UpdateAction.delete = true
is_action a b = false

-- groups and order: a clause goes to the group of its action, which is new at the first clause.
unfoldable pub group_clause :
    UpdateAction → Bytes → List (UpdateAction × List Bytes) → List (UpdateAction × List Bytes)
unfolding is_action
group_clause action clause [] = (action, clause ∷ []) ∷ []
group_clause action clause ((a, clauses) ∷ groups) =
    let rest = group_clause action clause groups in
    if is_action a action then (a, clauses ++ clause ∷ []) ∷ groups else (a, clauses) ∷ rest

unfoldable pub translate_clauses :
    List Update
    → List (UpdateAction × List Bytes)
    → Translator
    → List (UpdateAction × List Bytes) × Translator
unfolding translate_clause group_clause
translate_clauses [] groups t = (groups, t)
translate_clauses (u ∷ us) groups t =
    let (clause, next) = translate_clause u.action u.path u.value t in
    translate_clauses us (group_clause u.action clause groups) next

group_text : UpdateAction × List Bytes → Bytes
unfolding update_action_string join
group_text (action, clauses) = update_action_string action ++ bytes " " ++ join (bytes ", ") clauses

-- translateUpdate
unfoldable pub translate_update : List Update → Translator → Bytes × Translator
unfolding translate_clauses group_text join
translate_update us t =
    let (groups, end) = translate_clauses us [] t in (join (bytes " ") (map group_text groups), end)

-- ToDynamoUpdates: the text, the names and the values
unfoldable pub to_dynamo_updates : List Update → Bytes × (Assoc Bytes × Item)
unfolding translate_update
to_dynamo_updates us =
    let (text, t) = translate_update us new_translator in (text, (t.names, t.values))
