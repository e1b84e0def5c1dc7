-- ===== src/Tests/Writes.antt =====
-- The theorems on writes at a concrete backend.
use dynago.Prelude.{
  ◌≡◌, refl, [], ◌∷◌, List, Bytes, bytes, lookup, ◌⊎◌, Error, arith, ap, sym, ◌∙◌, to_upper, none,
  some, ok, err, ◌≟◌, split_on, insert, erase,
}
use dynago.Attribute.{Item, type_s, attr, no_attrs}
use dynago.Backend.{
  PutItemRequest, DeleteItemRequest, UpdateItemRequest, TransactWriteItem, put, condition_check,
  put_request, delete_request,
}
use dynago.Memdb.Schema.{MemoryBackend, TableData}
use dynago.Attribute.{deep_copy_item, deep_copy_item_lem}
use dynago.Attribute.Items.{get_attr, set_attr, get_attr-set_attr}
use dynago.Memdb.Updates.Parse.{parse_update_expression}
use dynago.Memdb.Updates.Apply.{eval_update_nodes}
use dynago.Memdb.Updates.Values.{resolve_value}
use dynago.Expr.Eval.{eval_func}
use dynago.Expr.Paths.{resolve_path_value}
use dynago.Memdb.Keys.{extract_key, key_of, extract_key_from_def, key_string}
use dynago.Memdb.Schema.{table}
use dynago.Memdb.Partitions.{get_item, store_item, delete_item, remove_entry}
use dynago.Memdb.Gsi.{update_gsis}
use dynago.Memdb.Parsing.{at_keyword, at_token, expect}
use dynago.Memdb.Conditions.{eval_condition}
use dynago.Memdb.Writes.Effects.{
  read, overwrite, put_item-read, delete_item_request-read, update_item-read,
}
use dynago.Memdb.Writes.Single.{
  put_item, delete_item_request, update_item, updated_item, check_condition, start_item,
}
use dynago.Memdb.Writes.Transact.{
  transact_write_items, tx_write_table_name, first_pass, condition_holds, second_pass, apply_in,
}
use dynago.Memdb.Writes.Atomic.{AllHold, Applied, transact_commits, transact_all_or_nothing}
use dynago.Memdb.Writes.Calls.{
  Call, put_call, delete_call, update_call, batch_call, transact_call, run, IsSoundBackend,
  run-IsSoundBackend,
}
use dynago.Memdb.Writes.Consistency.{KeepsKey}
use mathlib.Core.Path.{subst}
use dynago.Tests.Numbers.{naturals}
use dynago.Tests.Store.{
  users, schema, fresh, id, ann, bob, holding, at, with_ann, nothing, fresh-IsSoundBackend,
}

program : Unit {0}
unfolding transact_write_items put_item delete_item_request update_item naturals table lookup ◌≟◌
    tx_write_table_name first_pass condition_holds second_pass extract_key extract_key_from_def
    get_attr key_string eval_condition at_keyword at_token expect eval_func resolve_path_value
    split_on get_item store_item delete_item update_gsis apply_in remove_entry read insert erase
    deep_copy_item check_condition parse_update_expression eval_update_nodes resolve_value set_attr
    to_upper
program = tt

abbrev put_ann : PutItemRequest
put_ann = record {
  table_name = users;
  item = ann;
  condition_expression = bytes "attribute_not_exists(id)";
  placeholders = nothing;
}

abbrev delete_ann : DeleteItemRequest
delete_ann = record {
  table_name = users;
  key = id (bytes "1");
  condition_expression = bytes "attribute_exists(city)";
  placeholders = nothing;
}

abbrev move_ann : UpdateItemRequest
move_ann = record {
  table_name = users;
  key = id (bytes "1");
  update_expression = bytes "SET city = :c";
  condition_expression = [];
  placeholders = record { names = []; values = attr (bytes ":c") (type_s (bytes "Oslo")) no_attrs };
  return_values = bytes "ALL_NEW";
}

-- Puts Ann, and checks that nobody holds the key 2.
abbrev twis : List TransactWriteItem
twis =
    put put_ann
    ∷ condition_check (record delete_ann {
      key = id (bytes "2");
      condition_expression = bytes "attribute_not_exists(id)";
    })
    ∷ []

abbrev calls : List Call
calls =
    put_call put_ann
    ∷ put_call put_ann
    ∷ update_call move_ann
    ∷ batch_call ((users, put_request bob ∷ delete_request no_attrs ∷ []) ∷ [])
    ∷ transact_call twis
    ∷ delete_call delete_ann
    ∷ []

same : {x y : Item} → ok x ≡ ok y → x ≡ y
same h = cc

set_made :
    (old : Item)
    → updated_item naturals move_ann.update_expression move_ann.placeholders old
      ≡ ok (set_attr (bytes "city") (type_s (bytes "Oslo")) old)
unfolding updated_item program
set_made old =
    ap (λ i. ok (set_attr (bytes "city") (type_s (bytes "Oslo")) i)) (deep_copy_item_lem old)

id_kept :
    (old : Item)
    → get_attr (bytes "id") (set_attr (bytes "city") (type_s (bytes "Oslo")) old)
      ≡ get_attr (bytes "id") old
unfolding ◌≟◌
id_kept old = get_attr-set_attr (bytes "city") (bytes "id") (type_s (bytes "Oslo")) old

set_keeps :
    (old : Item)
    → extract_key schema (set_attr (bytes "city") (type_s (bytes "Oslo")) old)
      ≡ extract_key schema old
unfolding extract_key key_of
set_keeps old = ground (arith, id_kept old)

move_keeps : KeepsKey naturals schema move_ann
move_keeps old new e =
    subst (λ n. extract_key schema n ≡ extract_key schema old) (same (sym (set_made old) ∙ e))
      (set_keeps old)

-- The second put fails its condition, the batch stops part-way, the transaction is cancelled.
run-IsSoundBackend_example : IsSoundBackend (λ name. schema) (run naturals calls fresh)
run-IsSoundBackend_example =
    run-IsSoundBackend naturals (λ name. schema) calls fresh
      (
        tt,
        (
          tt,
          (move_keeps, (tt, ((λ u e old new made. cc, (λ u e old new made. cc, tt)), (tt, tt)))),
        ),
      )
      fresh-IsSoundBackend

transacted : transact_write_items naturals twis fresh ≡ (with_ann, ok tt)
unfolding program
transacted = refl

transact_commits_example : AllHold naturals fresh twis × Applied naturals twis fresh with_ann
transact_commits_example = transact_commits naturals twis fresh with_ann transacted

transact_all_or_nothing_example :
    ((transact_write_items naturals twis fresh ≡ (with_ann, ok tt)) × AllHold naturals fresh twis)
    ⊎ ((x : Error) × (transact_write_items naturals twis fresh ≡ (fresh, err x)))
transact_all_or_nothing_example =
    transact_all_or_nothing naturals twis fresh with_ann (omega arith)
      (transact_commits naturals twis fresh with_ann transacted).1

put_done : put_item naturals put_ann fresh ≡ (with_ann, ok tt)
unfolding program
put_done = refl

put_item-read_example :
    (td : TableData) × (h : Bytes) × (r : Bytes) × (lookup users fresh ≡ some td)
    × (extract_key td.schema ann ≡ ok (h, r))
    × (check_condition naturals put_ann.condition_expression nothing (read fresh users h r) ≡ ok tt)
    × ((n k s : Bytes) → read with_ann n k s ≡ overwrite users h r (some ann) (read fresh) n k s)
put_item-read_example = put_item-read naturals fresh with_ann put_ann put_done

abbrev without_ann : MemoryBackend
without_ann = (users, holding [] []) ∷ []

delete_done : delete_item_request naturals delete_ann with_ann ≡ (without_ann, ok tt)
unfolding program
delete_done = refl

delete_item_request-read_example :
    (td : TableData) × (h : Bytes) × (r : Bytes) × (lookup users with_ann ≡ some td)
    × (extract_key td.schema (id (bytes "1")) ≡ ok (h, r))
    × (check_condition naturals delete_ann.condition_expression nothing (read with_ann users h r)
        ≡ ok tt)
    × ((n k s : Bytes) → read without_ann n k s ≡ overwrite users h r none (read with_ann) n k s)
delete_item_request-read_example =
    delete_item_request-read naturals with_ann without_ann delete_ann delete_done

abbrev moved : Item
moved =
    attr (bytes "id") (type_s (bytes "1")) (attr (bytes "city") (type_s (bytes "Oslo")) no_attrs)

abbrev with_moved : MemoryBackend
with_moved = (users, holding (at (bytes "1") moved) (at (bytes "Oslo") moved)) ∷ []

update_done : update_item naturals move_ann with_ann ≡ (with_moved, ok (some moved))
unfolding program
update_done = refl

update_item-read_example :
    (td : TableData) × (h : Bytes) × (r : Bytes) × (item : Item) × (lookup users with_ann ≡ some td)
    × (extract_key td.schema (id (bytes "1")) ≡ ok (h, r))
    × (check_condition naturals [] move_ann.placeholders (read with_ann users h r) ≡ ok tt)
    × (updated_item naturals move_ann.update_expression move_ann.placeholders
          (start_item (read with_ann users h r) (id (bytes "1")))
        ≡ ok item)
    × ((n k s : Bytes)
        → read with_moved n k s ≡ overwrite users h r (some item) (read with_ann) n k s)
update_item-read_example =
    update_item-read naturals with_ann with_moved move_ann (some moved) update_done
