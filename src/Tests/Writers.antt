-- ===== src/Tests/Writers.antt =====
-- ReadModifyWrite on the in-memory backend, with another writer that comes between in the first
-- attempt.
use dynago.Prelude.{
  ℕ, ◌+◌, [], ◌∷◌, Bytes, bytes, true, false, none, ◌==◌, ◌≟◌, if◌then◌else◌, lookup, insert,
  split_on, to_upper, ok, err, validation,
}
use dynago.Attribute.{type_s, type_n, attr, no_attrs, deep_copy_item}
use dynago.Attribute.Items.{get_attr, set_attr}
use dynago.Expr.Floats.{format_int}
use dynago.Expr.Eval.{resolve_node, eval_compare, compare_values, holds}
use dynago.Expr.Paths.{resolve_path_value}
use dynago.Memdb.Schema.{MemoryBackend, table}
use dynago.Memdb.Parsing.{at_keyword, at_token, expect}
use dynago.Memdb.Conditions.{eval_condition}
use dynago.Memdb.Keys.{extract_key, extract_key_from_def, key_string}
use dynago.Memdb.Partitions.{get_item, store_item}
use dynago.Memdb.Gsi.{update_gsis}
use dynago.Memdb.Reads.Get.{get_item_request}
use dynago.Memdb.Reads.Project.{project_item}
use dynago.Memdb.Writes.Single.{put_item, check_condition}
use dynago.Client.Conditions.Build.{
  built, build_condition, translate_from, kind_of, emit, name_added, value_added, join,
}
use dynago.Client.Conditions.Placeholder.{placeholder}
use dynago.Client.Conditions.Tokens.{cond_tokens}
use dynago.Client.Keys.{string_key, key_map}
use dynago.Client.ReadModifyWrite.{Rmw, read_modify_write, filled, read_struct}
use dynago.Client.ReadModifyWrite.Guarded.{Guarded}
use dynago.Client.ReadModifyWrite.Versions.{
  get_version_field, set_version_field, version_name, version_of, with_version, next_version,
  settable, before_comma,
}
use dynago.Client.Requests.Items.{client_get, client_put}
use dynago.Client.Values.{pos, format_signed, any_to_attribute_value}
use dynago.Codec.Marshal.{Methods, marshal}
use dynago.Codec.Numbers.{
  Formats, parse_uint, parse_int, set_int, set_uint, fits_int, fits_uint, residue,
}
use dynago.Codec.Tags.{StructField, build_field}
use dynago.Codec.Types.{
  FieldTypes, field, no_fields, string_type, int_type, uint_type, w32, w64, bits,
}
use dynago.Codec.Unmarshal.{unmarshal}
use dynago.Tests.Numbers.{naturals}
use dynago.Tests.Store.{users, holding, at}

abbrev whole : Formats
whole = record {
  format64 = format_int;
  format32 = format_int;
  parse_float = parse_uint;
  exceeds32 = λ f. false;
  narrow = λ f. f;
  float_is_zero = λ f. false;
  format_time = λ t. [];
  parse_nano = λ s. none;
  parse_seconds = λ s. none;
}

abbrev methods : Methods
methods = record {
  marshal_dynamo = λ c fs x. err validation;
  unmarshal_dynamo = λ c fs av x. err validation;
}

abbrev tagged : Bytes → Bytes → StructField
tagged name text = record { field_name = name; exported = true; tag = text }

-- An id, a version and a balance.
abbrev account_type : FieldTypes
account_type = field (tagged (bytes "ID") (bytes "id")) string_type (
    field (tagged (bytes "Version") (bytes "v")) (int_type w64)
      (field (tagged (bytes "Balance") []) (uint_type w32) no_fields))

abbrev deposit : Rmw
deposit = record {
  formats = whole;
  methods = methods;
  conversions = record { to_int = pos; of_int = λ n. 0 };
  printers = record { format_g = format_int; sprint_g32 = format_int; sprint_g64 = format_int };
  table = record { name = users; discriminator_attr = none };
  types = account_type;
  key = string_key (bytes "id") (bytes "1");
  modify = λ x. ok (x.0, (x.1.0, (x.1.1.0 + 10, tt)));
  entity = λ x. none;
}

abbrev stored : Bytes → Bytes → MemoryBackend
stored version balance =
    (
      users,
      holding
          (at (bytes "1") (
            attr (bytes "id") (type_s (bytes "1")) (
              attr (bytes "v") (type_n version)
                (attr (bytes "Balance") (type_n balance) no_attrs))))
          [],
    )
    ∷ []

abbrev bonus_between : ℕ → MemoryBackend → MemoryBackend
bonus_between left m = if left == 3 then stored (bytes "8") (bytes "2") else m

program : Unit {0}
unfolding build_condition translate_from built cond_tokens kind_of emit name_added value_added join
    placeholder format_int format_signed any_to_attribute_value insert set_attr ◌≟◌ to_upper
    get_attr put_item naturals table lookup extract_key extract_key_from_def key_string
    eval_condition at_keyword at_token expect resolve_path_value split_on get_item store_item
    update_gsis deep_copy_item check_condition eval_compare resolve_node compare_values holds
    read_modify_write filled read_struct get_version_field set_version_field version_name version_of
    with_version next_version settable before_comma client_get client_put marshal parse_uint
    parse_int set_int set_uint fits_int fits_uint residue build_field bits unmarshal
    get_item_request key_map string_key project_item
program = tt
