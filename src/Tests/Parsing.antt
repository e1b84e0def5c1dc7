-- ===== src/Tests/Parsing.antt =====
-- Conditions parsed and evaluated.
use dynago.Prelude.{
  ◌≡◌, ◌≢◌, out_of_fuel, refl, true, [], ◌∷◌, bytes, ok, err, expression, lookup, split_on,
  has_prefix,
}
use dynago.Expr.Eval.{resolve_node, eval_compare, compare_values, holds, eval_func, begins_with}
use dynago.Expr.Paths.{resolve_path_value}
use dynago.Attribute.{Item, type_s, type_n, attr, no_attrs}
use dynago.Attribute.Items.{get_attr}
use dynago.Memdb.Parsing.{Placeholders, at_keyword, at_token, expect}
use dynago.Memdb.Conditions.{eval_condition, parse_expression_to_ast}
use dynago.Memdb.Conditions.Fuel.{parse_expression_to_ast-ne-out_of_fuel}
use dynago.Tests.Numbers.{naturals}

abbrev holders : Placeholders
holders = record {
  names = (bytes "#a", bytes "age") ∷ (bytes "#n", bytes "name") ∷ [];
  values =
      attr (bytes ":v0") (type_n (bytes "18")) (attr (bytes ":v1") (type_s (bytes "Al")) no_attrs);
}

abbrev alice : Item
alice =
    attr (bytes "name") (type_s (bytes "Alice")) (attr (bytes "age") (type_n (bytes "30")) no_attrs)

adult : eval_condition naturals (bytes "#a >= :v0 AND begins_with(#n, :v1)") holders alice ≡ ok true
unfolding eval_condition naturals at_keyword at_token lookup get_attr expect eval_compare
    resolve_node resolve_path_value split_on compare_values holds eval_func begins_with has_prefix
adult = refl

nested_alias : parse_expression_to_ast holders (bytes "#a.#n = :v0") ≡ err expression
unfolding parse_expression_to_ast at_keyword at_token lookup
nested_alias = refl

parse_expression_to_ast-ne-out_of_fuel_example :
    parse_expression_to_ast holders (bytes "#a IN (:v0, :v1) OR NOT (size(#n) < :v0)")
    ≢ err out_of_fuel
parse_expression_to_ast-ne-out_of_fuel_example =
    parse_expression_to_ast-ne-out_of_fuel holders
      (bytes "#a IN (:v0, :v1) OR NOT (size(#n) < :v0)")
