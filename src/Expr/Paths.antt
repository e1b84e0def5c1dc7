-- ===== src/Expr/Paths.antt =====
-- Dotted paths into nested maps: resolvePathValue, setNestedPath and removeNestedPath, which
-- memdb/expression.go and internal/expr both declare. memdb's setNestedPath drops a write below an
-- attribute that is no map; internal/expr's returns an error there.
use dynago.Prelude.{List, [], ◌∷◌, Bytes, Option, none, some}
use dynago.Attribute.{AttributeValue, Item, type_m}
use dynago.Attribute.Items.{get_attr}

-- The loop over parts[1:].
unfoldable pub walk : List Bytes → Option AttributeValue → Option AttributeValue
walk [] found = found
walk (part ∷ parts) (some (type_m m)) = walk parts (get_attr part m)
walk (part ∷ parts) _ = none

unfoldable pub resolve_path_value : List Bytes → Item → Option AttributeValue
unfolding walk
resolve_path_value [] item = none
resolve_path_value (part ∷ parts) item = walk parts (get_attr part item)
