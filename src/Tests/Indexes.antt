-- ===== src/Tests/Indexes.antt =====
-- The theorems on indexes at a table with one item.
use dynago.Prelude.{◌≡◌, refl, sym, ap, ◌∙◌, lookup, insert, [], Bytes, bytes, some, ok, ◌≟◌, arith}
use mathlib.Core.Path.{subst}
use dynago.Attribute.{Item, deep_copy_item}
use dynago.Attribute.Items.{get_attr}
use dynago.Memdb.Schema.{TableData}
use dynago.Memdb.Keys.{extract_key, extract_key_from_def, key_of, key_string}
use dynago.Memdb.Partitions.{get_item, store_item, remove_entry}
use dynago.Memdb.Gsi.{gsi_key, update_gsis}
use dynago.Memdb.Writes.Single.{put_stored, delete_stored}
use dynago.Memdb.Writes.Stored.{
  IsSoundTable, IsCompleteTable, NoClashes, put_stored-IsSoundTable, put_stored-IsCompleteTable,
  delete_stored-IsCompleteTable,
}
use dynago.Tests.Store.{holding, at, ann, bob, schema, by_city, empty-IsSoundTable, holds_nothing}

abbrev one_place : Bytes
one_place = bytes "S:1"

abbrev two_place : Bytes
two_place = bytes "S:2"

abbrev range_place : Bytes
range_place = bytes "_"

abbrev before : TableData
before = holding [] []

abbrev one : TableData
one = holding (at (bytes "1") ann) (at (bytes "Rome") ann)

program : Unit {0}
unfolding put_stored update_gsis get_item store_item remove_entry insert lookup extract_key
    extract_key_from_def get_attr key_string deep_copy_item ◌≟◌ key_of
program = tt

one_made : put_stored one_place range_place (get_item one_place range_place []) ann before ≡ one
unfolding program
one_made = refl

ann_key : extract_key schema ann ≡ ok (one_place, range_place)
unfolding program
ann_key = refl

bob_key : extract_key schema bob ≡ ok (two_place, range_place)
unfolding program
bob_key = refl

one-IsSoundTable : IsSoundTable one
one-IsSoundTable =
    subst IsSoundTable one_made
      (put_stored-IsSoundTable one_place range_place before ann ann_key empty-IsSoundTable)

empty-IsCompleteTable : IsCompleteTable before
empty-IsCompleteTable =
    (record { found = λ h r k s item e key. absurd (holds_nothing h r item e) }, tt)

no_clash_empty : NoClashes one_place range_place (some ann) before
no_clash_empty =
    (record { alone = λ k s a b other e key hit. absurd (holds_nothing k s other e) }, tt)

one-IsCompleteTable : IsCompleteTable one
one-IsCompleteTable = subst IsCompleteTable one_made (
    put_stored-IsCompleteTable one_place range_place before ann empty-IsSoundTable no_clash_empty
      empty-IsCompleteTable)

-- Ann lives elsewhere.
only_ann : (k s : Bytes) (other : Item) → get_item k s one.items ≡ some other → other ≡ ann
unfolding get_item lookup
only_ann k s other e = ground arith

apart : gsi_key by_city ann ≡ gsi_key by_city bob → ⊥
unfolding program
apart e = cc

no_clash_bob : NoClashes two_place range_place (some bob) one
no_clash_bob = (
  record {
    alone = λ k s a b other e key hit.
        absurd (apart (ap (gsi_key by_city) (sym (only_ann k s other e)) ∙ key ∙ sym hit));
  },
  tt,
)

put_stored-IsCompleteTable_example :
    IsCompleteTable
      (put_stored two_place range_place (get_item two_place range_place one.items) bob one)
put_stored-IsCompleteTable_example =
    put_stored-IsCompleteTable two_place range_place one bob one-IsSoundTable no_clash_bob
      one-IsCompleteTable

delete_stored-IsCompleteTable_example : IsCompleteTable (delete_stored one_place range_place one)
delete_stored-IsCompleteTable_example =
    delete_stored-IsCompleteTable one_place range_place one one-IsSoundTable one-IsCompleteTable
