-- ===== src/Memdb/Updates/Parse.antt =====
-- memdb/expression.go: updateParser.
use dynago.Prelude.{
  ℕ, zero, suc, ◌+◌, ◌*◌, Bool, true, false, ◌||◌, List, [], ◌∷◌, ◌++◌, Bytes, bytes, Option, none,
  some, ◌==◌, ◌≟◌, lookup, split_on, to_lower, to_upper, length, if◌then◌else◌, Result, ok, err,
  expression, out_of_fuel,
}
use dynago.Attribute.{AttributeValue}
use dynago.Attribute.Items.{get_attr}
use dynago.Expr.Ast.{UpdateAction}
use dynago.Memdb.Tokens.{tokenize_expr, is_ident_start}
use dynago.Memdb.Parsing.{Parser, Placeholders, pure, ◌>>=◌, ◌>>◌, peek, advance, rest_of, at_token}
use dynago.Memdb.Updates.Values.{
  UpdateValue, literal_value, path_value, arithmetic_value, if_not_exists_value, list_append_value,
}

-- updateOp; REMOVE has no value
pub record UpdateOp : Type 0 where
  pub action : UpdateAction
  pub path : List Bytes
  pub value : Option UpdateValue

-- The action that a keyword names.
action_of : Bytes → Option UpdateAction
action_of tok =
    let upper = to_upper tok in
    if upper ≟ bytes "SET"
    then some UpdateAction.set
    else if upper ≟ bytes "ADD"
    then some UpdateAction.add
    else if upper ≟ bytes "REMOVE"
    then some UpdateAction.remove
    else if upper ≟ bytes "DELETE"
    then some UpdateAction.delete
    else none

is_action_keyword : Bytes → Bool
unfolding action_of
is_action_keyword tok = elim (action_of tok) [ none ↦ false | some a ↦ true ]

-- The test that ends the clauses of one action.
at_clauses_end : List Bytes → Bool
unfolding is_action_keyword
at_clauses_end [] = true
at_clauses_end (t ∷ ts) = is_action_keyword t

skip_comma : List Bytes → List Bytes
skip_comma ts = if at_token (bytes ",") ts then rest_of ts else ts

starts_with : ℕ → Bytes → Bool
starts_with c [] = false
starts_with c (b ∷ tok) = b == c

starts_ident : Bytes → Bool
starts_ident [] = false
starts_ident (b ∷ tok) = is_ident_start b

from_name : Option Bytes → Result UpdateValue
from_name none = err expression
from_name (some resolved) = ok (path_value (split_on b'.' resolved))

from_value : Option AttributeValue → Result UpdateValue
from_value none = err expression
from_value (some v) = ok (literal_value v)

-- What `expect` of a punctuation mark would say: the parser tests and advances.
unless : Bytes → Parser (Unit {0})
unless tok ts = if at_token tok ts then ok (tt, rest_of ts) else err expression

module _ (p : Placeholders) where
  unfoldable pub resolve_path : Bytes → List Bytes
  unfolding starts_with
  resolve_path tok =
      if starts_with b'#' tok
      then elim (lookup tok p.names) [
        | none ↦ split_on b'.' tok
        | some resolved ↦ split_on b'.' resolved
      ]
      else split_on b'.' tok

  resolve_val : Bytes → Result UpdateValue
  unfolding from_value from_name starts_with
  resolve_val tok =
      if starts_with b':' tok
      then from_value (get_attr tok p.values)
      else if starts_with b'#' tok
      then from_name (lookup tok p.names)
      else ok (path_value (split_on b'.' tok))

  -- The name of a function that a #placeholder starts.
  function_name : Bytes → Bytes
  function_name tok = elim (lookup tok p.names) [ none ↦ tok | some r ↦ r ]

  returning : Result UpdateValue → Parser UpdateValue
  returning (ok v) ts = ok (v, ts)
  returning (err e) ts = err e

  mutual
    unfolding resolve_path resolve_val function_name returning from_name starts_with starts_ident
        unless

    parse_set_value : ℕ → Parser UpdateValue
    parse_set_value zero ts = err out_of_fuel
    parse_set_value (suc f) ts =
        (do
          first ← parse_set_atom f
          λ us.
              if at_token (bytes "+") us || at_token (bytes "-") us
              then (do second ← parse_set_atom f; pure (arithmetic_value first (peek us) second))
                  (rest_of us)
              else ok (first, us))
          ts

    parse_set_atom : ℕ → Parser UpdateValue
    parse_set_atom zero ts = err out_of_fuel
    parse_set_atom (suc f) [] = err expression
    parse_set_atom (suc f) (tok ∷ ts) =
        let call = λ (name : Bytes). parse_set_function f name (rest_of ts) in
        if starts_with b':' tok
        then returning (resolve_val tok) ts
        else if starts_with b'#' tok
        then (if at_token (bytes "(") ts
            then call (function_name tok)
            else returning (from_name (lookup tok p.names)) ts)
        else if starts_ident tok
        then (if at_token (bytes "(") ts then call tok else ok (path_value (split_on b'.' tok), ts))
        else err expression

    -- parseSetFunction, behind the opening bracket
    parse_set_function : ℕ → Bytes → Parser UpdateValue
    parse_set_function zero name ts = err out_of_fuel
    parse_set_function (suc f) name ts =
        let if_not_exists = λ (us : List Bytes).
          (do
            path_tok ← advance
            unless (bytes ",")
            val ← parse_set_value f
            unless (bytes ")")
            pure (if_not_exists_value (resolve_path path_tok) val))
            us in
        let list_append = λ (us : List Bytes).
          (do
            first ← parse_set_value f
            unless (bytes ",")
            second ← parse_set_value f
            unless (bytes ")")
            pure (list_append_value first second))
            us in
        if to_lower name ≟ bytes "if_not_exists"
        then if_not_exists ts
        else if to_lower name ≟ bytes "list_append"
        then list_append ts
        else err expression

  -- parseSetClauses
  parse_set_clauses : ℕ → List UpdateOp → Parser (List UpdateOp)
  unfolding at_clauses_end skip_comma parse_set_value
  parse_set_clauses zero ops ts = err out_of_fuel
  parse_set_clauses (suc f) ops ts =
      let clause = λ (us : List Bytes).
        (do
          path_tok ← advance
          unless (bytes "=")
          val ← parse_set_value f
          λ vs.
              parse_set_clauses f
                (ops
                  ++ record {
                    action = UpdateAction.set;
                    path = resolve_path path_tok;
                    value = some val;
                  }
                    ∷ [])
                (skip_comma vs))
          us in
      if at_clauses_end ts then ok (ops, ts) else clause ts

  -- parseAddDeleteClauses
  parse_add_delete_clauses : ℕ → UpdateAction → List UpdateOp → Parser (List UpdateOp)
  unfolding at_clauses_end skip_comma resolve_val returning
  parse_add_delete_clauses zero action ops ts = err out_of_fuel
  parse_add_delete_clauses (suc f) action ops ts =
      let clause = λ (us : List Bytes).
        (do
          path_tok ← advance
          λ vs.
              if at_clauses_end vs
              then err expression
              else (do
                val ← returning (resolve_val (peek vs))
                λ ws.
                    parse_add_delete_clauses f action
                      (ops
                        ++ record {
                          action = action;
                          path = resolve_path path_tok;
                          value = some val;
                        }
                          ∷ [])
                      (skip_comma ws))
                  (rest_of vs))
          us in
      if at_clauses_end ts then ok (ops, ts) else clause ts

  -- parseRemoveClauses
  parse_remove_clauses : ℕ → List UpdateOp → Parser (List UpdateOp)
  unfolding at_clauses_end skip_comma
  parse_remove_clauses zero ops ts = err out_of_fuel
  parse_remove_clauses (suc f) ops ts =
      let clause = λ (us : List Bytes).
        (do
          path_tok ← advance
          λ vs.
              parse_remove_clauses f
                (ops
                  ++ record {
                    action = UpdateAction.remove;
                    path = resolve_path path_tok;
                    value = none;
                  }
                    ∷ [])
                (skip_comma vs))
          us in
      if at_clauses_end ts then ok (ops, ts) else clause ts

  -- The switch of parse.
  parse_clauses : ℕ → UpdateAction → Parser (List UpdateOp)
  unfolding parse_set_clauses parse_add_delete_clauses parse_remove_clauses
  parse_clauses f UpdateAction.set = parse_set_clauses f []
  parse_clauses f UpdateAction.add = parse_add_delete_clauses f UpdateAction.add []
  parse_clauses f UpdateAction.remove = parse_remove_clauses f []
  parse_clauses f UpdateAction.delete = parse_add_delete_clauses f UpdateAction.delete []

  -- parse
  unfoldable pub parse_actions : ℕ → List UpdateOp → List Bytes → Result (List UpdateOp)
  unfolding parse_clauses action_of
  parse_actions zero ops ts = err out_of_fuel
  parse_actions (suc f) ops [] = ok ops
  parse_actions (suc f) ops (tok ∷ ts) = elim (action_of tok) [
    | none ↦ err expression
    | some action ↦ elim (parse_clauses f action ts) [
      | ok (found, rest) ↦ parse_actions f (ops ++ found) rest
      | err e ↦ err e
    ]
  ]

-- parseUpdateExpression
unfoldable pub parse_update_expression : Placeholders → Bytes → Result (List UpdateOp)
unfolding parse_actions tokenize_expr
parse_update_expression p text =
    let ts = tokenize_expr text in parse_actions p (4 * length ts + 4) [] ts
