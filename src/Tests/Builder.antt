-- ===== src/Tests/Builder.antt =====
-- internal/expr/builder.go on one condition.
use dynago.Prelude.{
  ◌≡◌, ◌≢◌, refl, List, [], ◌∷◌, Bytes, bytes, ok, err, expression, out_of_fuel, true, split_on,
  insert, lookup, ◌≟◌,
}
use dynago.Attribute.{type_s, type_n, type_bool}
use dynago.Expr.Ast.{
  CompareOp, LogicalOp, UpdateAction, Node, compare_node, logical_node, func_node, path_node,
  value_node, no_nodes, node,
}
use dynago.Client.Builder.{parse_condition}
use dynago.Client.Builder.Arguments.{parse_condition-ne-out_of_fuel}
use dynago.Client.Translation.Translate.{to_dynamo, alias_name}
use dynago.Client.Translation.Updates.{to_dynamo_updates}
use dynago.Client.Translation.Values.{HoldArguments, to_dynamo-parse_condition-HoldArguments}
use dynago.Client.Conditions.Build.{join}
use dynago.Client.Conditions.Placeholder.{placeholder}
use dynago.Expr.Floats.{format_int}
use dynago.Memdb.Parsing.{at_keyword, at_token, expect}
use dynago.Client.Values.{pos, GoValue, go_bool, go_int, go_string, Printers}

abbrev no_floats : Printers
no_floats = record { format_g = λ f. []; sprint_g32 = λ f. []; sprint_g64 = λ f. [] }

abbrev adult_text : Bytes
adult_text = bytes "Active = ? AND NOT (Home.Age<=? or contains(#Tags, ?))"

abbrev adult_args : List GoValue
adult_args = go_bool true ∷ go_int (pos 18) ∷ go_string (bytes "x") ∷ []

abbrev adult : Node
adult =
    logical_node LogicalOp.and
      (compare_node (path_node (bytes "Active" ∷ [])) CompareOp.eq (value_node (type_bool true)))
      (logical_node LogicalOp.not
        (logical_node LogicalOp.or
          (compare_node (path_node (bytes "Home" ∷ bytes "Age" ∷ [])) CompareOp.le
            (value_node (type_n (bytes "18"))))
          (func_node (bytes "contains") (
            node (path_node (bytes "Tags" ∷ []))
              (node (value_node (type_s (bytes "x"))) no_nodes))))
        Node.nil)

parses_adult : parse_condition no_floats adult_text adult_args ≡ ok adult
unfolding parse_condition at_keyword at_token expect split_on format_int
parses_adult = refl

-- The tokenizer keeps numbers, and no parser takes one.
number_operand : parse_condition no_floats (bytes "Age > 18") [] ≡ err expression
unfolding parse_condition at_keyword at_token expect split_on format_int
number_operand = refl

to_dynamo-parse_condition-HoldArguments_example :
    HoldArguments no_floats 0 adult_args (to_dynamo adult).1.1
to_dynamo-parse_condition-HoldArguments_example =
    to_dynamo-parse_condition-HoldArguments no_floats adult_text adult_args adult parses_adult

parse_condition-ne-out_of_fuel_example :
    parse_condition no_floats adult_text adult_args ≢ err out_of_fuel
parse_condition-ne-out_of_fuel_example =
    parse_condition-ne-out_of_fuel no_floats adult_text adult_args

-- Clauses of one action stand together.
grouped :
    (to_dynamo_updates (
      record {
        action = UpdateAction.set;
        path = bytes "A" ∷ bytes "B" ∷ [];
        value = value_node (type_s []);
      }
      ∷ record { action = UpdateAction.remove; path = bytes "C" ∷ []; value = Node.nil }
      ∷ record { action = UpdateAction.set; path = bytes "D" ∷ []; value = value_node (type_s []) }
      ∷ [])).0
    ≡ bytes "SET #A.#B = :v0, #D = :v1 REMOVE #C"
unfolding to_dynamo_updates format_int alias_name join insert lookup ◌≟◌ placeholder
grouped = refl
