-- ===== src/Client/Batch/Gets.antt =====
-- batch.go: BatchGet.
use dynago.Prelude.{List, [], ◌∷◌, ◌++◌, Bytes, Assoc, map, Result, ok, err}
use dynago.Attribute.{Item}
use dynago.Client.Keys.{KeyValue, key_map}
use dynago.Client.Batch.Chunks.{chunk_requests, max_batch_get_items}
use dynago.Client.Batch.Retries.{BatchGetter, Context, send_batch_get}
use dynago.Client.Pages.Serves.{values_of}
use dynago.Client.Requests.Items.{projection_of}

module _ {S A : Type 0} (B : BatchGetter S) (unmarshal : Item → Result A) (name : Bytes)
    (done : Context) where
  -- The loop over the chunks, with the results so far.
  unfoldable pub get_chunks :
      Bytes → Assoc Bytes → List (List Item) → List A → S → S × Result (List A)
  unfolding values_of
  get_chunks text names [] results s = (s, ok results)
  get_chunks text names (c ∷ chunks) results s =
      let (left, got) = send_batch_get B name done text names c s in
      elim got [
        | err e ↦ (left, err e)
        | ok items ↦ elim (values_of unmarshal items) [
          | err e ↦ (left, err e)
          | ok vs ↦ get_chunks text names chunks (results ++ vs) left
        ]
      ]

  -- BatchGet
  unfoldable pub client_batch_get : List KeyValue → List Bytes → S → S × Result (List A)
  unfolding get_chunks projection_of chunk_requests
  client_batch_get [] attrs s = (s, ok [])
  client_batch_get (k ∷ ks) attrs s =
      let (text, names) = projection_of attrs in
      get_chunks text names (chunk_requests (map (λ kv. key_map kv) (k ∷ ks)) max_batch_get_items)
        [] s
