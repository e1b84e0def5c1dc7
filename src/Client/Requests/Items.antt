-- ===== src/Client/Requests/Items.antt =====
-- put.go, delete.go, get.go and the calls of update.go.
use dynago.Prelude.{
  List, [], ◌∷◌, Bytes, bytes, Assoc, insert, map, Option, none, some, Result, ok, err, validation,
  not_found, ◌>>=◌,
}
use dynago.Attribute.{Item, no_attrs, attr, type_s}
use dynago.Attribute.Items.{set_attr}
use dynago.Memdb.Parsing.{Placeholders}
use dynago.Backend.{GetItemRequest, PutItemRequest, DeleteItemRequest, UpdateItemRequest}
use dynago.Client.Values.{GoValue, Printers}
use dynago.Client.Keys.{KeyValue, key_map}
use dynago.Client.Conditions.Build.{
  ConditionExpr, alias_of, join, build_condition, build_attr_not_exists,
}
use dynago.Client.Updates.Clauses.{
  UpdateConfig, UpdateOption, apply_options, more_condition, and_condition, build_update_request,
}

abbrev pub no_placeholders : Placeholders
no_placeholders = record { names = []; values = no_attrs }

unfoldable pub condition_text : Option ConditionExpr → Bytes
condition_text none = []
condition_text (some c) = c.expression

unfoldable pub condition_placeholders : Option ConditionExpr → Placeholders
condition_placeholders none = no_placeholders
condition_placeholders (some c) = c.placeholders

-- A table of the client: its name, and the attribute of its registry's discriminator, if it has one.
pub record ClientTable : Type 0 where
  pub name : Bytes
  pub discriminator_attr : Option Bytes

-- The options of Put.
pub data PutOption : Type 0 where
  if_not_exists : Bytes → PutOption
  put_condition : Bytes → List GoValue → PutOption

module _ (P : Printers) where
  unfoldable pub apply_put_option : PutOption → Option ConditionExpr → Result (Option ConditionExpr)
  unfolding more_condition and_condition build_attr_not_exists
  apply_put_option (if_not_exists name) cfg =
      ok (some (and_condition cfg (build_attr_not_exists name)))
  apply_put_option (put_condition text vals) cfg = more_condition cfg (build_condition P text vals)

  unfoldable pub apply_put_options :
      List PutOption → Option ConditionExpr → Result (Option ConditionExpr)
  unfolding apply_put_option
  apply_put_options [] cfg = ok cfg
  apply_put_options (o ∷ opts) cfg = do next ← apply_put_option o cfg; apply_put_options opts next

  -- DeleteCondition with its text and values, any number of times
  unfoldable pub apply_delete_options :
      List (Bytes × List GoValue) → Option ConditionExpr → Result (Option ConditionExpr)
  unfolding more_condition
  apply_delete_options [] cfg = ok cfg
  apply_delete_options ((text, vals) ∷ opts) cfg = do
    next ← more_condition cfg (build_condition P text vals)
    apply_delete_options opts next

-- The discriminator that Put adds to an entity of a table with a registry.
unfoldable pub discriminated : Option Bytes → Option Bytes → Item → Item
discriminated (some name) (some discriminator) av = set_attr name (type_s discriminator) av
discriminated _ _ av = av

unfoldable pub put_request_of : Bytes → Item → Option ConditionExpr → PutItemRequest
unfolding condition_text condition_placeholders
put_request_of table_name item condition = record {
  table_name = table_name;
  item = item;
  condition_expression = condition_text condition;
  placeholders = condition_placeholders condition;
}

unfoldable pub delete_request_of : Bytes → KeyValue → Option ConditionExpr → DeleteItemRequest
unfolding condition_text condition_placeholders
delete_request_of table_name key condition = record {
  table_name = table_name;
  key = key_map key;
  condition_expression = condition_text condition;
  placeholders = condition_placeholders condition;
}

-- The names of a projection, over those that are there.
unfoldable pub projection_names_of : List Bytes → Assoc Bytes → Assoc Bytes
projection_names_of [] names = names
projection_names_of (name ∷ attrs) names =
    projection_names_of attrs (insert (alias_of name) name names)

-- buildProjection
unfoldable pub build_projection : List Bytes → Bytes × Assoc Bytes
unfolding join projection_names_of
build_projection attrs =
    (join (bytes ", ") (map (λ name. alias_of name) attrs), projection_names_of attrs [])

-- The projection of a request, if any attributes are given.
unfoldable pub projection_of : List Bytes → Bytes × Assoc Bytes
unfolding build_projection
projection_of [] = ([], [])
projection_of (name ∷ attrs) = build_projection (name ∷ attrs)

unfoldable pub get_request_of : Bytes → KeyValue → List Bytes → GetItemRequest
unfolding projection_of
get_request_of table_name key attrs =
    let (text, names) = projection_of attrs in
    record {
      table_name = table_name;
      key = key_map key;
      projection_expression = text;
      names = names;
    }

module _ (P : Printers) (t : ClientTable) where
  abbrev no_config : UpdateConfig
  no_config = record { clauses = []; condition = none; return_mode = [] }

  -- The options of an update with at least one clause.
  unfoldable pub update_config : List UpdateOption → Result UpdateConfig
  update_config opts = do
    cfg ← apply_options P opts no_config
    elim cfg.clauses [ [] ↦ err validation | c ∷ cs ↦ ok cfg ]

  -- The options of UpdateReturning, which have a return mode.
  unfoldable pub returning_config : List UpdateOption → Result UpdateConfig
  unfolding update_config
  returning_config opts = do
    cfg ← update_config opts
    elim cfg.return_mode [ [] ↦ err validation | c ∷ cs ↦ ok cfg ]

  unfoldable pub returning_request : KeyValue → List UpdateOption → Result UpdateItemRequest
  unfolding returning_config
  returning_request key opts = do
    cfg ← returning_config opts
    req ← build_update_request P t.name key cfg
    ok (record req { return_values = cfg.return_mode })

module _ {S : Type 0} (P : Printers) (t : ClientTable) where
  -- (t *Table) Put, of an item that marshals to `av` and has a discriminator if it is an entity
  unfoldable pub client_put :
      (PutItemRequest → S → S × Result (Unit {0}))
      → Result Item
      → Option Bytes
      → List PutOption
      → S
      → S × Result (Unit {0})
  unfolding apply_put_options discriminated put_request_of
  client_put send (err e) entity opts s = (s, err e)
  client_put send (ok av) entity opts s = elim (apply_put_options P opts none) [
    | err e ↦ (s, err e)
    | ok condition ↦
        send (put_request_of t.name (discriminated t.discriminator_attr entity av) condition) s
  ]

  -- (t *Table) Delete
  unfoldable pub client_delete :
      (DeleteItemRequest → S → S × Result (Unit {0}))
      → KeyValue
      → List (Bytes × List GoValue)
      → S
      → S × Result (Unit {0})
  unfolding apply_delete_options delete_request_of
  client_delete send key opts s = elim (apply_delete_options P opts none) [
    | err e ↦ (s, err e)
    | ok condition ↦ send (delete_request_of t.name key condition) s
  ]

  -- (t *Table) Update
  unfoldable pub client_update :
      (UpdateItemRequest → S → S × Result (Option Item))
      → KeyValue
      → List UpdateOption
      → S
      → S × Result (Unit {0})
  unfolding update_config
  client_update send key opts s =
      elim (do cfg ← update_config P t opts; build_update_request P t.name key cfg) [
        | err e ↦ (s, err e)
        | ok req ↦
            let (left, resp) = send (record req { return_values = bytes "NONE" }) s in
            elim resp [ err e ↦ (left, err e) | ok attributes ↦ (left, ok tt) ]
      ]

module _ {A : Type 0} (unmarshal : Item → Result A) (zero_value : A) where
  -- len(resp.Attributes) == 0 gives the zero value
  unfoldable pub updated_value : Option Item → Result A
  updated_value none = ok zero_value
  updated_value (some no_attrs) = ok zero_value
  updated_value (some (attr k v item)) = unmarshal (attr k v item)

  -- UpdateReturning
  unfoldable pub update_returning :
      {S : Type 0}
      → Printers
      → ClientTable
      → (UpdateItemRequest → S → S × Result (Option Item))
      → KeyValue
      → List UpdateOption
      → S
      → S × Result A
  unfolding updated_value returning_request
  update_returning P t send key opts s = elim (returning_request P t key opts) [
    | err e ↦ (s, err e)
    | ok req ↦
        let (left, resp) = send req s in
        elim resp [ err e ↦ (left, err e) | ok attributes ↦ (left, updated_value attributes) ]
  ]

-- An item that is not there, or is empty, is ErrNotFound.
unfoldable pub found_value : {A : Type 0} → (Item → Result A) → Option Item → Result A
found_value unmarshal none = err not_found
found_value unmarshal (some no_attrs) = err not_found
found_value unmarshal (some (attr k v item)) = unmarshal (attr k v item)

-- Get
unfoldable pub client_get :
    {A : Type 0}
    → (Item → Result A)
    → ClientTable
    → (GetItemRequest → Result (Option Item))
    → KeyValue
    → List Bytes
    → Result A
unfolding found_value get_request_of
client_get unmarshal t ask key attrs = do
  item ← ask (get_request_of t.name key attrs)
  found_value unmarshal item
