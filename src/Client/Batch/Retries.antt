-- ===== src/Client/Batch/Retries.antt =====
-- batch.go: sendBatchWrite and sendBatchGet. `done attempt delay` says whether the context ends
-- before the delay that follows an attempt has passed.
use dynago.Prelude.{
  ℕ, zero, suc, ◌*◌, Bool, true, false, List, [], ◌∷◌, ◌++◌, Bytes, Option, none, some, Assoc,
  lookup, leb, length, Result, ok, err, unprocessed, cancelled, out_of_fuel,
}
use dynago.Attribute.{Item}
use dynago.Backend.{WriteRequest, KeysAndProjection}

-- batch.go: maxRetries
abbrev pub max_retries : ℕ
max_retries = 5

-- backoffBase << attempt, in milliseconds
unfoldable pub backoff : ℕ → ℕ
backoff zero = 50
backoff (suc attempt) = 2 * backoff attempt

-- BatchWriteItem of a backend with states S: the UnprocessedItems of the response.
pub record BatchWriter (S : Type 0) : Type 0 where
  pub batch_write : Assoc (List WriteRequest) → S → S × Result (Assoc (List WriteRequest))

-- resp.UnprocessedItems[t.Name()]: a missing key reads as an empty slice
abbrev pub or_none {ℓ} : {A : Type ℓ} → Option (List A) → List A
or_none none = []
or_none (some xs) = xs

abbrev pub Context : Type 0
Context = ℕ → ℕ → Bool

module _ {S : Type 0} (B : BatchWriter S) (name : Bytes) (done : Context) where
  -- The loop from an attempt on; the fuel bounds its rounds.
  unfoldable pub send_write_from : ℕ → ℕ → List WriteRequest → S → S × Result (Unit {0})
  unfolding backoff lookup
  send_write_from zero attempt pending s = (s, err out_of_fuel)
  send_write_from (suc fuel) attempt pending s =
      let (left, resp) = B.batch_write ((name, pending) ∷ []) s in
      elim resp [
        | err e ↦ (left, err e)
        | ok items ↦ elim (or_none (lookup name items)) [
          | [] ↦ (left, ok tt)
          | w ∷ ws ↦ elim (leb max_retries attempt) [
            | true ↦ (left, err (unprocessed (length (w ∷ ws))))
            | false ↦ elim (done attempt (backoff attempt)) [
              | true ↦ (left, err cancelled)
              | false ↦ send_write_from fuel (suc attempt) (w ∷ ws) left
            ]
          ]
        ]
      ]

  -- sendBatchWrite
  unfoldable pub send_batch_write : List WriteRequest → S → S × Result (Unit {0})
  unfolding send_write_from
  send_batch_write items s = send_write_from (suc max_retries) 0 items s

-- BatchGetItem of a backend: the Responses and the UnprocessedKeys.
pub record BatchGetter (S : Type 0) : Type 0 where
  pub batch_get :
      Assoc KeysAndProjection → S → S × Result (Assoc (List Item) × Assoc KeysAndProjection)

abbrev pub keys_of : Option KeysAndProjection → List Item
keys_of none = []
keys_of (some kp) = kp.keys

module _ {S : Type 0} (B : BatchGetter S) (name : Bytes) (done : Context) (projection : Bytes)
    (names : Assoc Bytes) where
  -- The loop from an attempt on, with the items collected so far.
  unfoldable pub send_get_from : ℕ → ℕ → List Item → List Item → S → S × Result (List Item)
  unfolding backoff lookup
  send_get_from zero attempt pending all_items s = (s, err out_of_fuel)
  send_get_from (suc fuel) attempt pending all_items s =
      let request : KeysAndProjection = record {
        keys = pending;
        projection_expression = projection;
        names = names;
      } in
      let (left, resp) = B.batch_get ((name, request) ∷ []) s in
      elim resp [
        | err e ↦ (left, err e)
        | ok (responses, rest) ↦ elim (keys_of (lookup name rest)) [
          | [] ↦ (left, ok (all_items ++ or_none (lookup name responses)))
          | k ∷ ks ↦ elim (leb max_retries attempt) [
            | true ↦ (left, err (unprocessed (length (k ∷ ks))))
            | false ↦ elim (done attempt (backoff attempt)) [
              | true ↦ (left, err cancelled)
              | false ↦
                  send_get_from fuel (suc attempt) (k ∷ ks)
                    (all_items ++ or_none (lookup name responses)) left
            ]
          ]
        ]
      ]

  -- sendBatchGet
  unfoldable pub send_batch_get : List Item → S → S × Result (List Item)
  unfolding send_get_from
  send_batch_get keys s = send_get_from (suc max_retries) 0 keys [] s
