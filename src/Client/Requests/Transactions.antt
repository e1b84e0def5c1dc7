-- ===== src/Client/Requests/Transactions.antt =====
-- transaction.go: the builders of transactions.
use dynago.Prelude.{
  ℕ, zero, suc, true, false, List, [], ◌∷◌, ◌++◌, Bytes, Option, none, some, ltb, length, Error,
  Result, ok, err, validation, ◌>>=◌,
}
use dynago.Attribute.{Item, no_attrs, attr}
use dynago.Backend.{GetItemRequest, TransactWriteItem, put, delete, update, condition_check}
use dynago.Client.Values.{GoValue, Printers}
use dynago.Client.Keys.{KeyValue}
use dynago.Client.Conditions.Build.{build_condition}
use dynago.Client.Updates.Clauses.{UpdateOption, build_update_request}
use dynago.Client.Requests.Items.{
  ClientTable, PutOption, apply_put_options, apply_delete_options, put_request_of,
  delete_request_of, get_request_of, update_config, found_value,
}

-- maxTransactItems
abbrev pub max_transact_items : ℕ
max_transact_items = 100

-- WriteTxBuilder; a panic of an option is an error of the result, since it ends the program
pub record WriteTxBuilder : Type 0 where
  pub items : List TransactWriteItem
  pub failure : Option Error

-- The calls on a builder. A put has what Marshal gives for its item.
pub data TxCall : Type 0 where
  tx_put : ClientTable → Result Item → List PutOption → TxCall
  tx_update : ClientTable → KeyValue → List UpdateOption → TxCall
  tx_delete : ClientTable → KeyValue → List (Bytes × List GoValue) → TxCall
  tx_check : ClientTable → KeyValue → Bytes → List GoValue → TxCall

abbrev pub write_tx : WriteTxBuilder
write_tx = record { items = []; failure = none }

-- b.items = append(b.items, item), or b.err = err
unfoldable pub appended : WriteTxBuilder → Result TransactWriteItem → WriteTxBuilder
appended b (ok item) = record b { items = b.items ++ item ∷ [] }
appended b (err e) = record b { failure = some e }

module _ (P : Printers) where
  -- The operation that a call makes.
  unfoldable pub operation : TxCall → Result TransactWriteItem
  unfolding apply_put_options apply_delete_options put_request_of delete_request_of update_config
  operation (tx_put t marshalled opts) = do
    av ← marshalled
    condition ← apply_put_options P opts none
    ok (put (put_request_of t.name av condition))
  operation (tx_update t key opts) = do
    cfg ← update_config P t opts
    req ← build_update_request P t.name key cfg
    ok (update req)
  operation (tx_delete t key opts) = do
    condition ← apply_delete_options P opts none
    ok (delete (delete_request_of t.name key condition))
  operation (tx_check t key text vals) = do
    cond ← build_condition P text vals
    ok (condition_check (delete_request_of t.name key (some cond)))

  -- Put, Update, Delete and Check: after an error nothing is added.
  unfoldable pub tx_call : TxCall → WriteTxBuilder → WriteTxBuilder
  unfolding operation appended
  tx_call c b = elim b.failure [ some e ↦ b | none ↦ appended b (operation c) ]

  unfoldable pub tx_calls : List TxCall → WriteTxBuilder → WriteTxBuilder
  unfolding tx_call
  tx_calls [] b = b
  tx_calls (c ∷ calls) b = tx_calls calls (tx_call c b)

-- Run: too few or too many operations are refused before anything is sent.
unfoldable pub run_items :
    {S : Type 0}
    → (List TransactWriteItem → S → S × Result (Unit {0}))
    → List TransactWriteItem
    → S
    → S × Result (Unit {0})
run_items send [] s = (s, err validation)
run_items send (item ∷ items) s = elim (ltb max_transact_items (length (item ∷ items))) [
  | true ↦ (s, err validation)
  | false ↦ send (item ∷ items) s
]

unfoldable pub run_write_tx :
    {S : Type 0}
    → (List TransactWriteItem → S → S × Result (Unit {0}))
    → WriteTxBuilder
    → S
    → S × Result (Unit {0})
unfolding run_items
run_write_tx send b s = elim b.failure [ some e ↦ (s, err e) | none ↦ run_items send b.items s ]

-- ReadTxBuilder.Get, for each of a list of gets with their projections
unfoldable pub read_items : List (ClientTable × (KeyValue × List Bytes)) → List GetItemRequest
unfolding get_request_of
read_items [] = []
read_items ((t, (key, attrs)) ∷ gets) = get_request_of t.name key attrs ∷ read_items gets

-- ReadTxBuilder.Run
unfoldable pub run_read_tx :
    (List GetItemRequest → Result (List (Option Item)))
    → List GetItemRequest
    → Result (List (Option Item))
run_read_tx send [] = err validation
run_read_tx send (req ∷ reqs) = elim (ltb max_transact_items (length (req ∷ reqs))) [
  | true ↦ err validation
  | false ↦ send (req ∷ reqs)
]

-- (r *ReadTxResult) Item, at an index that is not negative
unfoldable pub response_item : List (Option Item) → ℕ → Option Item
response_item [] index = none
response_item (none ∷ responses) zero = none
response_item (some no_attrs ∷ responses) zero = none
response_item (some (attr k v item) ∷ responses) zero = some (attr k v item)
response_item (r ∷ responses) (suc index) = response_item responses index

-- GetAs
unfoldable pub get_as : {A : Type 0} → (Item → Result A) → List (Option Item) → ℕ → Result A
unfolding response_item found_value
get_as unmarshal responses index = found_value unmarshal (response_item responses index)
