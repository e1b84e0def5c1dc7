-- ===== src/Client/Batch/Writes.antt =====
-- batch.go: BatchPut, BatchDelete and executeBatchWrite.
use dynago.Prelude.{
  ℕ, ◌+◌, ◌≡◌, Bool, true, false, List, [], ◌∷◌, ◌++◌, Bytes, length, map, Error, Result, ok, err,
  ◌>>=◌,
}
use dynago.Attribute.{Item}
use dynago.Backend.{WriteRequest, put_request, delete_request}
use dynago.Client.Keys.{KeyValue, key_map}
use dynago.Client.Batch.Chunks.{chunk_requests, max_batch_write_items}
use dynago.Client.Batch.Retries.{BatchWriter, Context, send_batch_write}

-- Documented behaviour of errgroup.Group with a context and a limit of one: the functions given to
-- Go run one after the other, Wait returns the first error, and the context of the functions is done
-- once one has failed. A function gets the state, and whether its context is done.
pub record ErrGroup (T : Type 0) : Type 0 where
  pub wait : List (Bool → T → T × Result (Unit {0})) → T → T × Result (Unit {0})
  pub wait-nil : (t : T) → wait [] t ≡ (t, ok tt)
  pub wait-ok :
      (f : Bool → T → T × Result (Unit {0})) (fs : List (Bool → T → T × Result (Unit {0}))) (t : T)
      → (f false t).1 ≡ ok tt
      → wait (f ∷ fs) t ≡ wait fs (f false t).0
  pub wait-err :
      (f : Bool → T → T × Result (Unit {0})) (fs : List (Bool → T → T × Result (Unit {0}))) (t : T)
      (e : Error)
      → (f false t).1 ≡ err e
      → (wait (f ∷ fs) t).1 ≡ err e

-- The state of a batch with OnProgress: the backend, `completed`, and the calls of onProgress so far.
pub record Progress (S : Type 0) : Type 0 where
  pub backend : S
  pub completed : ℕ
  pub reported : List (ℕ × ℕ)

unfoldable pub report :
    {S : Type 0} → ℕ → ℕ → Progress S × Result (Unit {0}) → Progress S × Result (Unit {0})
report sent total (t, err e) = (t, err e)
report sent total (t, ok u) = (
  record {
    backend = t.backend;
    completed = t.completed + sent;
    reported = t.reported ++ (t.completed + sent, total) ∷ [];
  },
  ok tt,
)

-- The context of a chunk: the batch's, or one that is done.
unfoldable pub chunk_context : Context → Bool → Context
chunk_context done true attempt delay = true
chunk_context done false attempt delay = done attempt delay

module _ {S : Type 0} (B : BatchWriter S) (name : Bytes) (done : Context) where
  unfoldable pub sent : List WriteRequest → Bool → Progress S → Progress S × Result (Unit {0})
  unfolding chunk_context
  sent chunk over t =
      let (left, outcome) = send_batch_write B name (chunk_context done over) chunk t.backend in
      (record t { backend = left }, outcome)

  -- What executeBatchWrite hands to Go for a chunk.
  unfoldable pub chunk_task :
      ℕ → List WriteRequest → Bool → Progress S → Progress S × Result (Unit {0})
  unfolding report sent
  chunk_task total chunk over t = report (length chunk) total (sent chunk over t)

module _ {S : Type 0} (B : BatchWriter S) (G : ErrGroup (Progress S)) (name : Bytes)
    (done : Context) where
  abbrev pub start : S → Progress S
  start s = record { backend = s; completed = 0; reported = [] }

  -- executeBatchWrite
  unfoldable pub execute_batch_write : List WriteRequest → S → Progress S × Result (Unit {0})
  unfolding chunk_task
  execute_batch_write requests s =
      G.wait
        (map (chunk_task B name done (length requests))
          (chunk_requests requests max_batch_write_items))
        (start s)

  marshalled : {A : Type 0} → (A → Result Item) → List A → Result (List WriteRequest)
  marshalled marshal [] = ok []
  marshalled marshal (x ∷ xs) =
      let rest = marshalled marshal xs in
      do av ← marshal x; writes ← rest; ok (put_request av ∷ writes)

  put_marshalled : Result (List WriteRequest) → S → Progress S × Result (Unit {0})
  put_marshalled (err e) s = (start s, err e)
  put_marshalled (ok writes) s = execute_batch_write writes s

  -- BatchPut; Marshal goes through reflection and is a parameter
  unfoldable pub batch_put :
      {A : Type 0} → (A → Result Item) → List A → S → Progress S × Result (Unit {0})
  unfolding put_marshalled marshalled
  batch_put marshal [] s = (start s, ok tt)
  batch_put marshal (x ∷ items) s = put_marshalled (marshalled marshal (x ∷ items)) s

  -- BatchDelete
  unfoldable pub batch_delete : List KeyValue → S → Progress S × Result (Unit {0})
  batch_delete [] s = (start s, ok tt)
  batch_delete (k ∷ ks) s = execute_batch_write (map (λ kv. delete_request (key_map kv)) (k ∷ ks)) s
