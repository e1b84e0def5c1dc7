-- ===== src/Client/Updates/Clauses.antt =====
-- update.go: the options of an update and buildUpdateRequest.
use dynago.Prelude.{
  ℕ, suc, Bool, true, false, List, [], ◌∷◌, ◌++◌, Bytes, bytes, Assoc, insert, map, Option, none,
  some, Result, ok, err, panic, ◌>>=◌, if◌then◌else◌,
}
use dynago.Attribute.{AttributeValue, Item, no_attrs}
use dynago.Attribute.Items.{set_attr}
use dynago.Backend.{UpdateItemRequest}
use dynago.Client.Values.{GoValue, Printers, any_to_attribute_value}
use dynago.Client.Keys.{KeyValue, key_map}
use dynago.Client.Conditions.Placeholder.{placeholder}
use dynago.Client.Conditions.Build.{
  ConditionExpr, alias_of, join, put_names, put_values, merge_conditions, build_condition,
}

-- updateAction
pub data Action : Type 0 where
  action_set action_add action_remove action_delete : Action

unfoldable pub action_string : Action → Bytes
action_string action_set = bytes "SET"
action_string action_add = bytes "ADD"
action_string action_remove = bytes "REMOVE"
action_string action_delete = bytes "DELETE"

unfoldable pub same_action : Action → Action → Bool
same_action action_set action_set = true
same_action action_add action_add = true
same_action action_remove action_remove = true
same_action action_delete action_delete = true
same_action _ _ = false

-- updateClause, as Set, Add, Remove and Delete make it
pub data UpdateClause : Type 0 where
  set_clause add_clause delete_clause : Bytes → GoValue → UpdateClause
  remove_clause : Bytes → UpdateClause

-- updateConfig; an empty `return_mode` is none
pub record UpdateConfig : Type 0 where
  pub clauses : List UpdateClause
  pub condition : Option ConditionExpr
  pub return_mode : Bytes

-- The options of Update and UpdateReturning.
pub data UpdateOption : Type 0 where
  clause : UpdateClause → UpdateOption
  if_condition : Bytes → List GoValue → UpdateOption
  return_new return_old : UpdateOption

-- c.condition with one more condition
unfoldable pub and_condition : Option ConditionExpr → ConditionExpr → ConditionExpr
and_condition none cond = cond
and_condition (some before) cond = merge_conditions before cond

-- A condition that cannot be built is a panic of the option.
unfoldable pub more_condition :
    Option ConditionExpr → Result ConditionExpr → Result (Option ConditionExpr)
unfolding and_condition
more_condition before (err e) = err panic
more_condition before (ok cond) = ok (some (and_condition before cond))

-- The state of the loop over the clauses.
pub record UpdateState : Type 0 where
  pub names : Assoc Bytes
  pub values : Item
  pub value_idx : ℕ
  pub groups : List (Action × List Bytes)

-- groupMap and groups: a part goes to the group of its action, which is new at the first part.
unfoldable pub add_part : Action → Bytes → List (Action × List Bytes) → List (Action × List Bytes)
unfolding same_action
add_part action part [] = (action, part ∷ []) ∷ []
add_part action part ((a, parts) ∷ groups) =
    let rest = add_part action part groups in
    if same_action a action then (a, parts ++ part ∷ []) ∷ groups else (a, parts) ∷ rest

-- A clause with a value, whose placeholder stands behind `link`.
unfoldable pub valued : Action → Bytes → Bytes → AttributeValue → UpdateState → UpdateState
unfolding add_part
valued action name link av st = record {
  names = insert (alias_of name) name st.names;
  values = set_attr (placeholder st.value_idx) av st.values;
  value_idx = suc st.value_idx;
  groups = add_part action (alias_of name ++ link ++ placeholder st.value_idx) st.groups;
}

unfoldable pub removing : Bytes → UpdateState → UpdateState
unfolding add_part
removing name st = record st {
  names = insert (alias_of name) name st.names;
  groups = add_part action_remove (alias_of name) st.groups;
}

abbrev pub no_state : UpdateState
no_state = record { names = []; values = no_attrs; value_idx = 0; groups = [] }

section_of : Action × List Bytes → Bytes
section_of (action, parts) = action_string action ++ bytes " " ++ join (bytes ", ") parts

-- The text of an update.
unfoldable pub update_text : UpdateState → Bytes
unfolding section_of action_string join
update_text st = join (bytes " ") (map section_of st.groups)

-- The request with the condition's text, names and values.
unfoldable pub conditioned : Option ConditionExpr → UpdateItemRequest → UpdateItemRequest
unfolding put_names put_values
conditioned none req = req
conditioned (some c) req = record req {
  condition_expression = c.expression;
  placeholders = record {
    names = put_names c.placeholders.names req.placeholders.names;
    values = put_values c.placeholders.values req.placeholders.values;
  };
}

unfoldable pub unconditioned : Bytes → KeyValue → UpdateState → UpdateItemRequest
unfolding update_text
unconditioned table_name key st = record {
  table_name = table_name;
  key = key_map key;
  update_expression = update_text st;
  condition_expression = [];
  placeholders = record { names = st.names; values = st.values };
  return_values = [];
}

unfoldable pub update_request :
    Bytes → KeyValue → Option ConditionExpr → UpdateState → UpdateItemRequest
unfolding conditioned unconditioned
update_request table_name key condition st = conditioned condition (unconditioned table_name key st)

module _ (P : Printers) where
  unfoldable pub apply_option : UpdateOption → UpdateConfig → Result UpdateConfig
  unfolding more_condition
  apply_option (clause c) cfg = ok (record cfg { clauses = cfg.clauses ++ c ∷ [] })
  apply_option (if_condition text vals) cfg = do
    condition ← more_condition cfg.condition (build_condition P text vals)
    ok (record cfg { condition = condition })
  apply_option return_new cfg = ok (record cfg { return_mode = bytes "ALL_NEW" })
  apply_option return_old cfg = ok (record cfg { return_mode = bytes "ALL_OLD" })

  unfoldable pub apply_options : List UpdateOption → UpdateConfig → Result UpdateConfig
  unfolding apply_option
  apply_options [] cfg = ok cfg
  apply_options (o ∷ opts) cfg = do next ← apply_option o cfg; apply_options opts next

  unfoldable pub clause_step : UpdateClause → UpdateState → Result UpdateState
  unfolding valued removing
  clause_step (set_clause name v) st = do
    av ← any_to_attribute_value P v
    ok (valued action_set name (bytes " = ") av st)
  clause_step (add_clause name v) st = do
    av ← any_to_attribute_value P v
    ok (valued action_add name (bytes " ") av st)
  clause_step (delete_clause name v) st = do
    av ← any_to_attribute_value P v
    ok (valued action_delete name (bytes " ") av st)
  clause_step (remove_clause name) st = ok (removing name st)

  unfoldable pub clauses_from : List UpdateClause → UpdateState → Result UpdateState
  unfolding clause_step
  clauses_from [] st = ok st
  clauses_from (c ∷ clauses) st = do next ← clause_step c st; clauses_from clauses next

  -- buildUpdateRequest
  unfoldable pub build_update_request : Bytes → KeyValue → UpdateConfig → Result UpdateItemRequest
  unfolding clauses_from update_request
  build_update_request table_name key cfg = do
    st ← clauses_from cfg.clauses no_state
    ok (update_request table_name key cfg.condition st)
