-- ===== src/Client/Requests/Sends.antt =====
-- transaction.go: what a transaction that has been built sends.
use dynago.Prelude.{
  ◌≡◌, refl, sym, ap, List, [], ◌∷◌, ◌++◌, none, some, inl, inr, Result-cases, Error, Result, ok,
  err, ◌>>=◌, arith,
}
use mathlib.Core.List.{append_assoc, append-nil}
use dynago.Backend.{TransactWriteItem}
use dynago.Client.Values.{Printers}
use dynago.Client.Requests.Transactions.{
  TxCall, write_tx, appended, operation, tx_call, tx_calls, run_items, run_write_tx,
}

module _ (P : Printers) where
  -- The operations of calls, if all of them can be made, and else the first error.
  unfoldable pub operations : List TxCall → Result (List TransactWriteItem)
  operations [] = ok []
  operations (c ∷ calls) =
      let rest = operations calls in do item ← operation P c; items ← rest; ok (item ∷ items)

  stays_failed :
      (calls : List TxCall) (items : List TransactWriteItem) (e : Error)
      → (tx_calls P calls (record { items = items; failure = some e })).failure ≡ some e
  unfolding tx_calls tx_call
  stays_failed [] items e = refl
  stays_failed (c ∷ calls) items e = stays_failed calls items e

  module _ {S : Type 0} (send : List TransactWriteItem → S → S × Result (Unit {0})) where
    outcome : List TransactWriteItem → Result (List TransactWriteItem) → S → S × Result (Unit {0})
    outcome before (err e) s = (s, err e)
    outcome before (ok items) s = run_items send (before ++ items) s

    runs_from :
        (calls : List TxCall) (before : List TransactWriteItem) (s : S)
        → run_write_tx send (tx_calls P calls (record { items = before; failure = none })) s
          ≡ outcome before (operations calls) s
    unfolding tx_calls tx_call appended operations run_write_tx outcome
    runs_from [] before s = ap (λ l. run_items send l s) (sym (append-nil before))
    runs_from (c ∷ calls) before s = elim (Result-cases (operation P c)) [
      | inr (x, failed) ↦ ground (arith, stays_failed calls before x)
      | inl (item, fine) ↦
          let rest = runs_from calls (before ++ item ∷ []) s in
          elim (Result-cases (operations calls)) [
            | inr (x, failed) ↦ ground (arith, rest)
            | inl (items, all) ↦ ground (arith, rest, append_assoc before (item ∷ []) items)
          ]
    ]

    -- Running a transaction that a chain of calls builds gives the first error of the calls and
    -- leaves the backend alone, or, if there is none, runs their operations in the order of the calls.
    pub run_write_tx-tx_calls :
        (calls : List TxCall) (s : S)
        → run_write_tx send (tx_calls P calls write_tx) s
          ≡ elim (operations calls) [ err e ↦ (s, err e) | ok items ↦ run_items send items s ]
    unfolding outcome
    run_write_tx-tx_calls calls s = elim (Result-cases (operations calls)) [
      | inr (x, failed) ↦ ground (arith, runs_from calls [] s)
      | inl (items, all) ↦ ground (arith, runs_from calls [] s)
    ]
