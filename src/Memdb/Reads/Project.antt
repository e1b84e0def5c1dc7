-- ===== src/Memdb/Reads/Project.antt =====
-- memdb/memdb.go: projectItem, parseProjectionAttrs and splitCSV.
use dynago.Prelude.{List, [], ◌∷◌, Bytes, Option, none, some, Assoc, split_on}
use dynago.Attribute.{AttributeValue, Item, no_attrs}
use dynago.Attribute.Items.{get_attr, set_attr}
use dynago.Memdb.KeyCondition.Pieces.{trim_space}
use dynago.Memdb.KeyCondition.Parse.{resolve_name_placeholder}

-- The loop of parseProjectionAttrs: empty parts are passed over.
unfoldable pub projection_names : List Bytes → Assoc Bytes → List Bytes
unfolding trim_space resolve_name_placeholder
projection_names [] names = []
projection_names (p ∷ parts) names = elim (trim_space p) [
  | [] ↦ projection_names parts names
  | c ∷ s ↦ resolve_name_placeholder (c ∷ s) names ∷ projection_names parts names
]

-- parseProjectionAttrs; splitCSV splits at each comma
unfoldable pub parse_projection_attrs : Bytes → Assoc Bytes → List Bytes
unfolding projection_names
parse_projection_attrs projection names = projection_names (split_on b',' projection) names

with_found : Bytes → Option AttributeValue → Item → Item
with_found attr none result = result
with_found attr (some v) result = set_attr attr v result

-- The loop over the attributes.
unfoldable pub select : List Bytes → Item → Item → Item
unfolding with_found
select [] item result = result
select (attr ∷ attrs) item result = select attrs item (with_found attr (get_attr attr item) result)

-- projectItem
unfoldable pub project_item : Item → Bytes → Assoc Bytes → Item
unfolding select parse_projection_attrs
project_item item [] names = item
project_item item (c ∷ projection) names =
    select (parse_projection_attrs (c ∷ projection) names) item no_attrs
