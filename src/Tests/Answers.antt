-- ===== src/Tests/Answers.antt =====
-- The theorem on a Query of the client at the in-memory backend, newest first and two at a time.
use dynago.Prelude.{
  suc, ◌≡◌, refl, ap, ◌∙◌, false, List, [], ◌∷◌, Bytes, bytes, none, some, lookup, ◌≟◌, to_upper,
  to_lower, has_prefix, cut, contains, length, Result, ok, err, validation,
}
use dynago.Attribute.{Item, type_s, attr, no_attrs, deep_copy_item}
use dynago.Attribute.Items.{get_attr}
use dynago.Backend.{QueryRequest}
use dynago.Memdb.Schema.{TableData, MemoryBackend, table}
use dynago.Memdb.Keys.{key_string}
use dynago.Memdb.Conditions.{eval_condition}
use dynago.Memdb.KeyCondition.Parse.{
  parse_key_condition, resolve_value_placeholder, resolve_name_placeholder,
}
use dynago.Memdb.KeyCondition.Pieces.{trim_space, is_blank, trim_left, trim_right, split_on_and}
use dynago.Memdb.Reads.Page.{collect}
use dynago.Memdb.Reads.Project.{project_item}
use dynago.Memdb.Reads.Query.{candidates, query}
use dynago.Client.Pages.Loops.{read_all}
use dynago.Client.Pages.Serves.{values_of, limited}
use dynago.Client.Requests.KeyConditions.{KeyCondition}
use dynago.Client.Requests.Queries.{
  ReadConfig, build_query_request, query_page, key_text, key_placeholders, more_placeholders,
  add_names,
}
use dynago.Client.Requests.Items.{projection_of, condition_text}
use dynago.Client.Conditions.Build.{put_names}
use dynago.Client.Requests.Answers.{read_all-query}
use dynago.Tests.Numbers.{naturals}
use dynago.Tests.Pages.{hash_def, seq, event, events, events-IsDistinct, at_keys, newest_first}

abbrev log : TableData
log = record {
  schema = record { hash_key = hash_def; range_key = some seq; gsis = [] };
  items = (bytes "S:p", events) ∷ [];
  gsis = [];
}

abbrev backend : MemoryBackend
backend = (bytes "log", log) ∷ []

abbrev request : QueryRequest
request = record {
  table_name = bytes "log";
  index_name = [];
  key_condition_expression = bytes "#pk = :pk0";
  filter_expression = [];
  projection_expression = [];
  placeholders = record {
    names = (bytes "#pk", bytes "pk") ∷ [];
    values = attr (bytes ":pk0") (type_s (bytes "p")) no_attrs;
  };
  limit = 2;
  scan_index_forward = some false;
  exclusive_start_key = no_attrs;
}

abbrev newest_two : ReadConfig
newest_two = record {
  filter = none;
  limit = 2;
  scan_forward = some false;
  index_name = [];
  projection = [];
}

abbrev of_p : KeyCondition
of_p = record { partition_attr = bytes "pk"; partition_val = type_s (bytes "p"); sort_cond = none }

-- The request is the one that the client builds.
built_request : build_query_request (bytes "log") of_p newest_two no_attrs ≡ request
unfolding build_query_request key_text key_placeholders more_placeholders add_names projection_of
    condition_text put_names
built_request = refl

parsed :
    parse_key_condition (bytes "#pk = :pk0") request.placeholders (bytes "pk") (some seq)
    ≡ ok (type_s (bytes "p"), none)
unfolding parse_key_condition resolve_value_placeholder resolve_name_placeholder trim_space is_blank
    trim_left trim_right split_on_and lookup get_attr ◌≟◌ to_upper to_lower has_prefix cut contains
parsed = refl

found : table (bytes "log") backend ≡ ok log
unfolding table lookup ◌≟◌
found = refl

stored : lookup (key_string (type_s (bytes "p"))) log.items ≡ some events
unfolding lookup ◌≟◌ key_string
stored = refl

-- The second attribute, if it is a string.
name_of : Item → Result Bytes
name_of (attr j v (attr k (type_s s) item)) = ok s
name_of _ = err validation

abbrev all : List Item
all = event (bytes "c") ∷ event (bytes "b") ∷ event (bytes "a") ∷ []

kept : collect naturals [] [] request.placeholders all ≡ ok all
unfolding collect eval_condition project_item deep_copy_item
kept = refl

named : values_of name_of all ≡ ok (bytes "c" ∷ bytes "b" ∷ bytes "a" ∷ [])
unfolding values_of name_of
named = refl

read_all-query_example :
    read_all name_of 2
      (query_page (λ r. query naturals r backend) request)
      (suc (length (candidates naturals none (some seq) (some false) no_attrs events)))
    ≡ ok (bytes "c" ∷ bytes "b" ∷ [])
unfolding limited
read_all-query_example =
    read_all-query naturals name_of 2 request backend log seq (type_s (bytes "p")) none events all
      (bytes "c" ∷ bytes "b" ∷ bytes "a" ∷ []) found refl refl parsed stored events-IsDistinct
      at_keys (ap (collect naturals [] [] request.placeholders) newest_first ∙ kept) named
