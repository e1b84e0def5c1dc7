-- ===== src/Tests/Requests.antt =====
-- The theorems on the requests of the client, at concrete conditions, updates and transactions.
use dynago.Prelude.{
  ◌≡◌, ◌⊎◌, refl, sym, ap, List, [], ◌∷◌, ◌++◌, Bytes, bytes, insert, lookup, inl, Option, none,
  some, ◌≟◌, to_upper, Error, ok, err, ◌>>=◌,
}
use dynago.Attribute.{Item, no_attrs, attr, type_s, type_n}
use dynago.Attribute.Items.{get_attr, set_attr}
use dynago.Backend.{UpdateItemRequest}
use dynago.Expr.Ast.{compare_node, path_node, value_node, CompareOp}
use dynago.Client.Translation.Translate.{to_dynamo}
use dynago.Client.Translation.Named.{to_dynamo-IsAliased}
use dynago.Expr.Floats.{decimal, format_int}
use dynago.Expr.Update.{set_checked}
use dynago.Memdb.Tokens.{is_ident_start, is_ident_part, is_digit, is_space, is_two, span}
use dynago.Memdb.Updates.Agrees.{set_checked-set_nested}
use dynago.Memdb.Updates.StringSets.{IsDistinct, IsUnion, add_to_string_set-IsUnion}
use dynago.Expr.Eval.{set_has}
use dynago.Memdb.Updates.Changes.{set_nested, add_to_string_set}
use dynago.Memdb.Reads.Project.{parse_projection_attrs}
use dynago.Memdb.KeyCondition.Pieces.{is_blank}
use dynago.Client.Values.{
  GoValue, go_string, go_int, pos, Printers, any_to_attribute_value, format_signed,
}
use dynago.Client.Keys.{key_map, string_key}
use dynago.Client.Conditions.Placeholder.{placeholder}
use dynago.Client.Conditions.Tokens.{cond_tokens}
use dynago.Client.Conditions.Build.{
  ConditionExpr, join, kind_of, emit, name_added, value_added, translate_from, built,
  build_condition, build_attr_not_exists, merge_conditions, put_names, put_values,
}
use dynago.Client.Conditions.Aliases.{IsAliased, merge_conditions-build_condition}
use dynago.Client.Conditions.Values.{IsStored, build_condition-IsStored}
use dynago.Client.Updates.Clauses.{
  set_clause, add_clause, UpdateConfig, clauses_from, clause_step, valued, removing, add_part,
  same_action, update_text, action_string, conditioned, unconditioned, update_request,
  build_update_request,
}
use dynago.Client.Updates.Stored.{clause_values, build_update_request-IsStored}
use dynago.Client.Requests.Items.{ClientTable, build_projection}
use dynago.Client.Requests.Transactions.{
  TxCall, tx_check, tx_put, tx_calls, write_tx, run_items, run_write_tx,
}
use dynago.Client.Requests.Sends.{operations, run_write_tx-tx_calls}
use dynago.Client.Requests.Projections.{parse_projection_attrs-build_projection}
use dynago.Tests.Store.{users, ann}

printers : Printers
printers = record { format_g = format_int; sprint_g32 = format_int; sprint_g64 = format_int }

abbrev age_is : Bytes
age_is = bytes "age >= ? AND NOT city = ?"

abbrev age_values : List GoValue
age_values = go_int (pos 18) ∷ go_string (bytes "Rome") ∷ []

abbrev age_condition : ConditionExpr
age_condition = record {
  expression = bytes "#age >= :v0 AND NOT #city = :v1";
  placeholders = record {
    names = (bytes "#age", bytes "age") ∷ (bytes "#city", bytes "city") ∷ [];
    values =
        attr (bytes ":v0") (type_n (bytes "18"))
          (attr (bytes ":v1") (type_s (bytes "Rome")) no_attrs);
  };
}

program : Unit {0}
unfolding build_condition translate_from built cond_tokens is_ident_start is_ident_part is_digit
    is_space is_two span kind_of emit name_added value_added join placeholder decimal format_int
    format_signed any_to_attribute_value insert set_attr ◌≟◌ to_upper printers get_attr
program = tt

age_built : build_condition printers age_is age_values ≡ ok age_condition
unfolding program
age_built = refl

age_named :
    (lookup (bytes "#age") age_condition.placeholders.names ≡ some (bytes "age"))
    ⊎ (lookup (bytes "#age") age_condition.placeholders.names ≡ some (bytes "age"))
unfolding lookup ◌≟◌
age_named = inl refl

merge_conditions-build_condition_example :
    lookup (bytes "#age") (merge_conditions age_condition age_condition).placeholders.names
    ≡ some (bytes "age")
merge_conditions-build_condition_example =
    merge_conditions-build_condition printers age_is age_is age_values age_values age_condition
      age_condition (bytes "#age") (bytes "age") age_built age_built age_named

build_condition-IsStored_example : IsStored printers 0 age_values age_condition.placeholders.values
build_condition-IsStored_example =
    build_condition-IsStored printers age_is age_values age_condition age_built

-- An update with a condition that has no values.
abbrev birthday : UpdateConfig
birthday = record {
  clauses =
      add_clause (bytes "age") (go_int (pos 1))
      ∷ set_clause (bytes "city") (go_string (bytes "Oslo"))
      ∷ [];
  condition = some (build_attr_not_exists (bytes "id"));
  return_mode = [];
}

abbrev birthday_request : UpdateItemRequest
birthday_request = record {
  table_name = users;
  key = attr (bytes "id") (type_s (bytes "1")) no_attrs;
  update_expression = bytes "ADD #age :v0 SET #city = :v1";
  condition_expression = bytes "attribute_not_exists(#id)";
  placeholders = record {
    names =
        (bytes "#age", bytes "age")
        ∷ (bytes "#city", bytes "city")
        ∷ (bytes "#id", bytes "id")
        ∷ [];
    values =
        attr (bytes ":v0") (type_n (bytes "1"))
          (attr (bytes ":v1") (type_s (bytes "Oslo")) no_attrs);
  };
  return_values = [];
}

updates : Unit {0}
unfolding build_update_request update_request unconditioned conditioned clauses_from clause_step
    valued removing add_part same_action update_text action_string put_names put_values
    build_attr_not_exists key_map string_key
updates = tt

birthday_built :
    build_update_request printers users (string_key (bytes "id") (bytes "1")) birthday
    ≡ ok birthday_request
unfolding program updates
birthday_built = refl

AliasedIn : Option ConditionExpr → Type 0
AliasedIn none = Unit
AliasedIn (some c) = IsAliased c.placeholders.names

values_in : Option ConditionExpr → Item
values_in none = no_attrs
values_in (some c) = c.placeholders.values

valueless_condition :
    (c : ConditionExpr) → birthday.condition ≡ some c → c.placeholders.values ≡ no_attrs
unfolding build_attr_not_exists values_in
valueless_condition c e = ap values_in (sym e)

build_update_request-IsStored_example :
    IsStored printers 0 (clause_values birthday.clauses) birthday_request.placeholders.values
build_update_request-IsStored_example =
    build_update_request-IsStored printers users (string_key (bytes "id") (bytes "1")) birthday
      birthday_request valueless_condition birthday_built

-- The collision that the last theorem leaves out: the condition's :v0 replaces the update's.
collision :
    (do
      cond ← build_condition printers (bytes "age = ?") (go_int (pos 4) ∷ [])
      build_update_request printers users (string_key (bytes "id") (bytes "1")) (record {
        clauses = set_clause (bytes "age") (go_int (pos 5)) ∷ [];
        condition = some cond;
        return_mode = [];
      }))
    ≡ ok (record {
      table_name = users;
      key = attr (bytes "id") (type_s (bytes "1")) no_attrs;
      update_expression = bytes "SET #age = :v0";
      condition_expression = bytes "#age = :v0";
      placeholders = record {
        names = (bytes "#age", bytes "age") ∷ [];
        values = attr (bytes ":v0") (type_n (bytes "4")) no_attrs;
      };
      return_values = [];
    })
unfolding program updates
collision = refl

abbrev people : ClientTable
people = record { name = users; discriminator_attr = none }

abbrev checks : List TxCall
checks =
    tx_put people (ok ann) []
    ∷ tx_check people (string_key (bytes "id") (bytes "2")) (bytes "age = ?") []
    ∷ []

run_write_tx-tx_calls_example :
    run_write_tx (λ items s. (s ++ items, ok tt)) (tx_calls printers checks write_tx) []
    ≡ elim (operations printers checks) [
      | err e ↦ ([], err e)
      | ok items ↦ run_items (λ items s. (s ++ items, ok tt)) items []
    ]
run_write_tx-tx_calls_example =
    run_write_tx-tx_calls printers (λ items s. (s ++ items, ok tt)) checks []

parse_projection_attrs-build_projection_example :
    parse_projection_attrs
      (build_projection (bytes "id" ∷ bytes "age" ∷ [])).0
      (build_projection (bytes "id" ∷ bytes "age" ∷ [])).1
    ≡ bytes "id" ∷ bytes "age" ∷ []
unfolding is_blank
parse_projection_attrs-build_projection_example =
    parse_projection_attrs-build_projection (bytes "id" ∷ bytes "age" ∷ [])
      ((refl, (refl, (refl, (refl, tt)))), ((refl, (refl, (refl, (refl, (refl, (refl, tt)))))), tt))

set_checked-set_nested_example :
    (set_checked (bytes "id") (bytes "x" ∷ []) (type_s []) ann
      ≡ ok (set_nested (bytes "id") (bytes "x" ∷ []) (type_s []) ann))
    ⊎ ((set_checked (bytes "id") (bytes "x" ∷ []) (type_s []) ann ≡ err Error.expression)
        × (set_nested (bytes "id") (bytes "x" ∷ []) (type_s []) ann ≡ ann))
set_checked-set_nested_example =
    set_checked-set_nested (bytes "id") (bytes "x" ∷ []) (type_s []) ann

a_set : IsDistinct (bytes "a" ∷ [])
unfolding set_has
a_set = (refl, tt)

add_to_string_set-IsUnion_example :
    IsUnion
      (bytes "a" ∷ [])
      (bytes "b" ∷ bytes "a" ∷ [])
      (bytes "b")
      (add_to_string_set (bytes "a" ∷ []) (bytes "b" ∷ bytes "a" ∷ []))
add_to_string_set-IsUnion_example =
    add_to_string_set-IsUnion (bytes "a" ∷ []) (bytes "b" ∷ bytes "a" ∷ []) (bytes "b") a_set

to_dynamo-IsAliased_example :
    IsAliased
      (to_dynamo (
        compare_node
          (path_node (bytes "age" ∷ []))
          CompareOp.eq
          (value_node (type_n (bytes "1"))))).1.0
to_dynamo-IsAliased_example =
    to_dynamo-IsAliased
      (compare_node (path_node (bytes "age" ∷ [])) CompareOp.eq (value_node (type_n (bytes "1"))))
