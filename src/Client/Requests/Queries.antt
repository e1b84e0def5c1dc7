-- ===== src/Client/Requests/Queries.antt =====
-- query.go, scan.go, iter.go and collection.go: options, requests and calls. A configured limit is 0
-- where the source's is not positive.
use dynago.Prelude.{
  ℕ, Bool, true, false, List, [], ◌∷◌, ◌++◌, Bytes, bytes, Assoc, Option, none, some, Error, Result,
  ok, err, ◌>>=◌,
}
use dynago.Attribute.{Item, no_attrs, attr}
use dynago.Memdb.Parsing.{Placeholders}
use dynago.Backend.{QueryRequest, ScanRequest, PageResponse}
use dynago.Client.Values.{GoValue, Printers}
use dynago.Client.Conditions.Build.{ConditionExpr, alias_of, put_names, put_values, build_condition}
use dynago.Client.Updates.Clauses.{more_condition}
use dynago.Client.Requests.Items.{condition_text, condition_placeholders, projection_of}
use dynago.Client.Pages.Loops.{Ask, read_all, query_collection}
use dynago.Client.Pages.Iterators.{iterate, iterate_known}
use dynago.Client.Requests.KeyConditions.{KeyCondition}

-- queryConfig, and scanConfig, which has no direction
pub record ReadConfig : Type 0 where
  pub filter : Option ConditionExpr
  pub limit : ℕ
  pub scan_forward : Option Bool
  pub index_name : Bytes
  pub projection : List Bytes

abbrev pub no_read_config : ReadConfig
no_read_config = record {
  filter = none;
  limit = 0;
  scan_forward = none;
  index_name = [];
  projection = [];
}

-- QueryOption and ScanOption
pub data ReadOption : Type 0 where
  read_filter : Bytes → List GoValue → ReadOption
  read_limit : ℕ → ReadOption
  read_forward : Bool → ReadOption
  read_index : Bytes → ReadOption
  read_project : List Bytes → ReadOption

module _ (P : Printers) where
  unfoldable pub apply_read_option : ReadOption → ReadConfig → Result ReadConfig
  unfolding more_condition
  apply_read_option (read_filter text vals) cfg = do
    cond ← more_condition cfg.filter (build_condition P text vals)
    ok (record cfg { filter = cond })
  apply_read_option (read_limit n) cfg = ok (record cfg { limit = n })
  apply_read_option (read_forward forward) cfg = ok (record cfg { scan_forward = some forward })
  apply_read_option (read_index name) cfg = ok (record cfg { index_name = name })
  apply_read_option (read_project attrs) cfg =
      ok (record cfg { projection = cfg.projection ++ attrs })

  unfoldable pub apply_read_options : List ReadOption → ReadConfig → Result ReadConfig
  unfolding apply_read_option
  apply_read_options [] cfg = ok cfg
  apply_read_options (o ∷ opts) cfg = do
    next ← apply_read_option o cfg
    apply_read_options opts next

-- The names and values of a condition over those that are there.
unfoldable pub more_placeholders : Option ConditionExpr → Placeholders → Placeholders
unfolding put_names put_values
more_placeholders none p = p
more_placeholders (some c) p = record {
  names = put_names c.placeholders.names p.names;
  values = put_values c.placeholders.values p.values;
}

sort_text : Option ConditionExpr → Bytes
sort_text none = []
sort_text (some c) = bytes " AND " ++ c.expression

unfoldable pub key_text : KeyCondition → Bytes
unfolding sort_text
key_text key = alias_of key.partition_attr ++ bytes " = :pk0" ++ sort_text key.sort_cond

unfoldable pub key_placeholders : KeyCondition → Placeholders
unfolding more_placeholders
key_placeholders key = more_placeholders key.sort_cond (record {
  names = (alias_of key.partition_attr, key.partition_attr) ∷ [];
  values = attr (bytes ":pk0") key.partition_val no_attrs;
})

unfoldable pub add_names : Assoc Bytes → Placeholders → Placeholders
unfolding put_names
add_names more p = record p { names = put_names more p.names }

-- buildQueryRequest
unfoldable pub build_query_request : Bytes → KeyCondition → ReadConfig → Item → QueryRequest
unfolding key_text key_placeholders more_placeholders condition_text projection_of add_names
build_query_request table_name key cfg start_key =
    let (text, names) = projection_of cfg.projection in
    record {
      table_name = table_name;
      index_name = cfg.index_name;
      key_condition_expression = key_text key;
      filter_expression = condition_text cfg.filter;
      projection_expression = text;
      placeholders = add_names names (more_placeholders cfg.filter (key_placeholders key));
      limit = cfg.limit;
      scan_index_forward = cfg.scan_forward;
      exclusive_start_key = start_key;
    }

-- buildScanRequest
unfoldable pub build_scan_request : Bytes → ReadConfig → Item → ScanRequest
unfolding condition_placeholders condition_text projection_of add_names
build_scan_request table_name cfg start_key =
    let (text, names) = projection_of cfg.projection in
    record {
      table_name = table_name;
      index_name = cfg.index_name;
      filter_expression = condition_text cfg.filter;
      projection_expression = text;
      placeholders = add_names names (condition_placeholders cfg.filter);
      limit = cfg.limit;
      exclusive_start_key = start_key;
    }

-- req.Limit and req.ExclusiveStartKey set on a request
abbrev pub query_page : (QueryRequest → Result PageResponse) → QueryRequest → Ask
query_page send req limit start = send (record req { limit = limit; exclusive_start_key = start })

abbrev pub scan_page : (ScanRequest → Result PageResponse) → ScanRequest → Ask
scan_page send req limit start = send (record req { limit = limit; exclusive_start_key = start })

module _ {A : Type 0} (P : Printers) (unmarshal : Item → Result A) (table_name : Bytes)
    (fuel : ℕ) where
  -- Query
  unfoldable pub client_query :
      (QueryRequest → Result PageResponse) → KeyCondition → List ReadOption → Result (List A)
  unfolding apply_read_options build_query_request read_all
  client_query send key opts = do
    cfg ← apply_read_options P opts no_read_config
    read_all unmarshal cfg.limit (query_page send (build_query_request table_name key cfg no_attrs))
        fuel

  -- Scan
  unfoldable pub client_scan :
      (ScanRequest → Result PageResponse) → List ReadOption → Result (List A)
  unfolding apply_read_options build_scan_request read_all
  client_scan send opts = do
    cfg ← apply_read_options P opts no_read_config
    read_all unmarshal cfg.limit (scan_page send (build_scan_request table_name cfg no_attrs)) fuel

  -- QueryCollection, of a table with or without a registry
  unfoldable pub client_collection :
      (QueryRequest → Result PageResponse) → Bool → KeyCondition → List ReadOption → Result (List A)
  unfolding apply_read_options build_query_request query_collection
  client_collection send false key opts = err Error.expression
  client_collection send true key opts = do
    cfg ← apply_read_options P opts no_read_config
    query_collection unmarshal cfg.limit
        (query_page send (build_query_request table_name key cfg no_attrs)) fuel

  module _ {W : Type 0} (yield : Result A → W → W × Bool) where
    -- QueryIter
    unfoldable pub client_query_iter :
        (QueryRequest → Result PageResponse) → KeyCondition → List ReadOption → W → Result W
    unfolding apply_read_options build_query_request iterate
    client_query_iter send key opts w = do
      cfg ← apply_read_options P opts no_read_config
      iterate unmarshal cfg.limit yield
          (query_page send (build_query_request table_name key cfg no_attrs)) fuel no_attrs w

    -- ScanIter
    unfoldable pub client_scan_iter :
        (ScanRequest → Result PageResponse) → List ReadOption → W → Result W
    unfolding apply_read_options build_scan_request iterate
    client_scan_iter send opts w = do
      cfg ← apply_read_options P opts no_read_config
      iterate unmarshal cfg.limit yield
          (scan_page send (build_scan_request table_name cfg no_attrs)) fuel no_attrs w

    -- CollectionIter
    unfoldable pub client_collection_iter :
        (QueryRequest → Result PageResponse) → Bool → KeyCondition → List ReadOption → W → Result W
    unfolding apply_read_options build_query_request iterate_known
    client_collection_iter send false key opts w = ok (yield (err Error.expression) w).0
    client_collection_iter send true key opts w = do
      cfg ← apply_read_options P opts no_read_config
      iterate_known unmarshal cfg.limit yield
          (query_page send (build_query_request table_name key cfg no_attrs)) fuel no_attrs w
