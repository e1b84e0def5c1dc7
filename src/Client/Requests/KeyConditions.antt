-- ===== src/Client/Requests/KeyConditions.antt =====
-- query.go: Partition and the conditions on the sort key.
use dynago.Prelude.{[], ◌∷◌, ◌++◌, Bytes, bytes, Option, none, some, Result, ok, err, ◌>>=◌}
use dynago.Attribute.{AttributeValue, no_attrs, attr}
use dynago.Client.Values.{GoValue, Printers, to_attribute_value}
use dynago.Client.Conditions.Build.{ConditionExpr, alias_of}

-- KeyCondition
pub record KeyCondition : Type 0 where
  pub partition_attr : Bytes
  pub partition_val : AttributeValue
  pub sort_cond : Option ConditionExpr

-- sortCompare, of a value that is converted
unfoldable pub sort_compare : Bytes → Bytes → AttributeValue → ConditionExpr
sort_compare name op val = record {
  expression = alias_of name ++ bytes " " ++ op ++ bytes " :sk0";
  placeholders = record {
    names = (alias_of name, name) ∷ [];
    values = attr (bytes ":sk0") val no_attrs;
  };
}

unfoldable pub begins_with_cond : Bytes → AttributeValue → ConditionExpr
begins_with_cond name prefix = record {
  expression = bytes "begins_with(" ++ alias_of name ++ bytes ", :sk0)";
  placeholders = record {
    names = (alias_of name, name) ∷ [];
    values = attr (bytes ":sk0") prefix no_attrs;
  };
}

unfoldable pub between_cond : Bytes → AttributeValue → AttributeValue → ConditionExpr
between_cond name low high = record {
  expression = alias_of name ++ bytes " BETWEEN :sk0 AND :sk1";
  placeholders = record {
    names = (alias_of name, name) ∷ [];
    values = attr (bytes ":sk0") low (attr (bytes ":sk1") high no_attrs);
  };
}

unfoldable pub with_sort : KeyCondition → Result ConditionExpr → Result KeyCondition
with_sort kc (err e) = err e
with_sort kc (ok cond) = ok (record kc { sort_cond = some cond })

module _ (P : Printers) where
  -- Partition
  unfoldable pub partition_condition : Bytes → GoValue → Result KeyCondition
  partition_condition name val = do
    av ← to_attribute_value P val
    ok (record { partition_attr = name; partition_val = av; sort_cond = none })

  sort_by : Bytes → KeyCondition → Bytes → GoValue → Result KeyCondition
  unfolding with_sort sort_compare
  sort_by op kc name val =
      with_sort kc (do av ← to_attribute_value P val; ok (sort_compare name op av))

  -- SortEquals, SortGreaterThan, SortLessThan, SortGreaterOrEqual, SortLessOrEqual
  unfoldable pub sort_equals : KeyCondition → Bytes → GoValue → Result KeyCondition
  unfolding sort_by
  sort_equals kc name val = sort_by (bytes "=") kc name val

  unfoldable pub sort_greater_than : KeyCondition → Bytes → GoValue → Result KeyCondition
  unfolding sort_by
  sort_greater_than kc name val = sort_by (bytes ">") kc name val

  unfoldable pub sort_less_than : KeyCondition → Bytes → GoValue → Result KeyCondition
  unfolding sort_by
  sort_less_than kc name val = sort_by (bytes "<") kc name val

  unfoldable pub sort_greater_or_equal : KeyCondition → Bytes → GoValue → Result KeyCondition
  unfolding sort_by
  sort_greater_or_equal kc name val = sort_by (bytes ">=") kc name val

  unfoldable pub sort_less_or_equal : KeyCondition → Bytes → GoValue → Result KeyCondition
  unfolding sort_by
  sort_less_or_equal kc name val = sort_by (bytes "<=") kc name val

  -- SortBeginsWith
  unfoldable pub sort_begins_with : KeyCondition → Bytes → GoValue → Result KeyCondition
  unfolding with_sort begins_with_cond
  sort_begins_with kc name prefix =
      with_sort kc (do av ← to_attribute_value P prefix; ok (begins_with_cond name av))

  -- SortBetween
  unfoldable pub sort_between : KeyCondition → Bytes → GoValue → GoValue → Result KeyCondition
  unfolding with_sort between_cond
  sort_between kc name low high = with_sort kc (do
    from ← to_attribute_value P low
    upto ← to_attribute_value P high
    ok (between_cond name from upto))
