-- ===== src/Client/Conditions/Build.antt =====
-- condition.go: buildCondition, buildAttrNotExists and mergeConditions.
use dynago.Prelude.{
  ℕ, suc, Bool, false, ◌||◌, List, [], ◌∷◌, ◌++◌, Bytes, bytes, Assoc, insert, ◌≟◌, to_upper, Error,
  Result, ok, err, ◌>>=◌, if◌then◌else◌,
}
use dynago.Attribute.{AttributeValue, Item, no_attrs, attr}
use dynago.Attribute.Items.{set_attr}
use dynago.Memdb.Parsing.{Placeholders}
use dynago.Client.Values.{GoValue, Printers, any_to_attribute_value}
use dynago.Client.Conditions.Placeholder.{placeholder}
use dynago.Client.Conditions.Tokens.{cond_tokens}

-- conditionExpr
pub record ConditionExpr : Type 0 where
  pub expression : Bytes
  pub placeholders : Placeholders

-- strings.Join
unfoldable pub join : Bytes → List Bytes → Bytes
join sep [] = []
join sep (s ∷ []) = s
join sep (s ∷ t ∷ rest) = s ++ sep ++ join sep (t ∷ rest)

abbrev pub alias_of : Bytes → Bytes
alias_of name = b'#' ∷ name

-- for k, v := range more { into[k] = v }
unfoldable pub put_names : Assoc Bytes → Assoc Bytes → Assoc Bytes
put_names [] into = into
put_names ((k, v) ∷ more) into = put_names more (insert k v into)

unfoldable pub put_values : Item → Item → Item
put_values no_attrs into = into
put_values (attr k v more) into = put_values more (set_attr k v into)

-- condBuilder
pub record CondBuilder : Type 0 where
  pub names : Assoc Bytes
  pub values : Item
  pub value_idx : ℕ

abbrev pub no_builder : CondBuilder
no_builder = record { names = []; values = no_attrs; value_idx = 0 }

-- What the loop over the tokens does with one.
pub data TokenKind : Type 0 where
  keyword passed value_mark function_name attribute_name : TokenKind

is_cond_keyword : Bytes → Bool
is_cond_keyword upper = (upper ≟ bytes "AND") || (upper ≟ bytes "OR") || (upper ≟ bytes "NOT")

-- isOperator, and parentheses and commas
is_passed : Bytes → Bool
is_passed tok =
    (tok ≟ bytes "=")
    || (tok ≟ bytes "<>")
    || (tok ≟ bytes "<")
    || (tok ≟ bytes "<=")
    || (tok ≟ bytes ">")
    || (tok ≟ bytes ">=")
    || (tok ≟ bytes "(")
    || (tok ≟ bytes ")")
    || (tok ≟ bytes ",")

before_paren : List Bytes → Bool
before_paren [] = false
before_paren (t ∷ toks) = t ≟ bytes "("

unfoldable pub kind_of : Bytes → List Bytes → TokenKind
unfolding is_cond_keyword is_passed before_paren
kind_of tok toks =
    if is_cond_keyword (to_upper tok)
    then keyword
    else if is_passed tok
    then passed
    else if tok ≟ bytes "?"
    then value_mark
    else if before_paren toks
    then function_name
    else attribute_name

abbrev pub Translated : Type 0
Translated = Result (List Bytes × CondBuilder)

-- out = append(out, tok), for what the rest of the loop appends
unfoldable pub emit : Bytes → Translated → Translated
emit tok (err e) = err e
emit tok (ok (out, cb)) = ok (tok ∷ out, cb)

unfoldable pub name_added : Bytes → CondBuilder → CondBuilder
name_added tok cb = record cb { names = insert (alias_of tok) tok cb.names }

unfoldable pub value_added : AttributeValue → CondBuilder → CondBuilder
value_added av cb = record {
  names = cb.names;
  values = set_attr (placeholder cb.value_idx) av cb.values;
  value_idx = suc cb.value_idx;
}

unfoldable pub built : List Bytes × CondBuilder → Result ConditionExpr
unfolding join
built (out, cb) = ok (record {
  expression = join (bytes " ") out;
  placeholders = record { names = cb.names; values = cb.values };
})

module _ (P : Printers) where
  -- translate, from a token on
  unfoldable pub translate_from : List Bytes → List GoValue → CondBuilder → Translated
  unfolding kind_of emit name_added value_added
  translate_from [] [] cb = ok ([], cb)
  translate_from [] (v ∷ vals) cb = err Error.expression
  translate_from (tok ∷ toks) vals cb = elim (kind_of tok toks) [
    | keyword ↦ emit (to_upper tok) (translate_from toks vals cb)
    | passed ↦ emit tok (translate_from toks vals cb)
    | function_name ↦ emit tok (translate_from toks vals cb)
    | attribute_name ↦ emit (alias_of tok) (translate_from toks vals (name_added tok cb))
    | value_mark ↦ elim vals [
      | [] ↦ err Error.expression
      | v ∷ rest ↦ elim (any_to_attribute_value P v) [
        | err e ↦ err e
        | ok av ↦ emit (placeholder cb.value_idx) (translate_from toks rest (value_added av cb))
      ]
    ]
  ]

  -- buildCondition
  unfoldable pub build_condition : Bytes → List GoValue → Result ConditionExpr
  unfolding translate_from built cond_tokens
  build_condition text vals = do
    done ← translate_from (cond_tokens text) vals no_builder
    built done

-- buildAttrNotExists
unfoldable pub build_attr_not_exists : Bytes → ConditionExpr
build_attr_not_exists name = record {
  expression = bytes "attribute_not_exists(" ++ alias_of name ++ bytes ")";
  placeholders = record { names = (alias_of name, name) ∷ []; values = no_attrs };
}

-- mergeConditions
unfoldable pub merge_conditions : ConditionExpr → ConditionExpr → ConditionExpr
unfolding put_names put_values
merge_conditions a b = record {
  expression = bytes "(" ++ a.expression ++ bytes ") AND (" ++ b.expression ++ bytes ")";
  placeholders = record {
    names = put_names b.placeholders.names (put_names a.placeholders.names []);
    values = put_values b.placeholders.values (put_values a.placeholders.values no_attrs);
  };
}
