-- ===== src/Tests/Batch.antt =====
-- The theorems on the client's batches, at a backend that writes one item of each call.
use dynago.Prelude.{
  ◌+◌, ◌*◌, ◌<◌, ◌≡◌, ◌≢◌, refl, ap, Bool, true, false, List, [], ◌∷◌, ◌++◌, Assoc, lookup, ◌≟◌,
  Result, ok, err, out_of_fuel, arith, length, Bytes,
}
use mathlib.Core.List.{Perm, append_assoc}
use mathlib.Core.List.Perm
use mathlib.Core.Path.{subst}
use dynago.Backend.{WriteRequest, put_request, delete_request}
use dynago.Client.Batch.Chunks.{chunk_requests, concat, AllWithin, chunk_requests_lem}
use dynago.Client.Batch.Retries.{
  BatchWriter, Context, or_none, send_write_from, send_batch_write, backoff,
}
use dynago.Client.Batch.Writes.{
  Progress, ErrGroup, execute_batch_write, chunk_task, sent, report, chunk_context,
}
use dynago.Client.Batch.Applied.{IsHonest, execute_batch_write-applied}
use dynago.Client.Batch.Complete.{
  last, more, Drains-send_batch_write, send_batch_write-ne-out_of_fuel,
}
use dynago.Attribute.Items.{get_attr}
use dynago.Memdb.Schema.{TableData, MemoryBackend, table}
use dynago.Memdb.Keys.{extract_key, extract_key_from_def, key_string}
use dynago.Memdb.Gsi.{update_gsis}
use dynago.Memdb.Writes.Single.{put_stored}
use dynago.Memdb.Writes.Batch.{writes_in}
use dynago.Client.Batch.InMemory.{memdb_writer, execute_batch_write-writes_in}
use dynago.Tests.Store.{users, ann, bob, holding, fresh}

-- After an error the functions that are left run with a context that is done.
run_group :
    {T : Type 0} → Bool → List (Bool → T → T × Result (Unit {0})) → T → T × Result (Unit {0})
run_group over [] t = (t, ok tt)
run_group over (f ∷ fs) t =
    let (u, r) = f over t in
    elim r [ ok x ↦ run_group over fs u | err e ↦ ((run_group true fs u).0, err e) ]

in_turn : {T : Type 0} → ErrGroup T
unfolding run_group
in_turn = record {
  wait = λ fs t. run_group false fs t;
  wait-nil = λ t. refl;
  wait-ok = λ f fs t fine. ground arith;
  wait-err = λ f fs t e failed. ground arith;
}

-- The state lists what has been written.
write_one :
    List WriteRequest → List WriteRequest → List WriteRequest × Result (Assoc (List WriteRequest))
write_one [] s = (s, ok [])
write_one (w ∷ ws) s = (s ++ w ∷ [], ok ((users, ws) ∷ []))

abbrev trickle : BatchWriter (List WriteRequest)
trickle = record { batch_write = λ request s. write_one (or_none (lookup users request)) s }

abbrev alive : Context
alive attempt delay = false

program : Unit {0}
unfolding lookup ◌≟◌ write_one run_group send_write_from send_batch_write chunk_requests concat
    execute_batch_write chunk_task sent report chunk_context backoff
program = tt

writes_end : (pending s : List WriteRequest) → (write_one pending s).1 ≢ err out_of_fuel
unfolding write_one
writes_end [] s e = cc
writes_end (w ∷ ws) s e = cc

trickle-accounts :
    (pending s left : List WriteRequest) (resp : Assoc (List WriteRequest))
    → write_one pending s ≡ (left, ok resp)
    → Perm (left ++ or_none (lookup users resp)) (s ++ pending)
unfolding write_one lookup ◌≟◌
trickle-accounts [] s left resp e =
    let same : s ≡ left = ap (λ r. r.0) e in
    let none_left : [] ≡ resp = ground arith in
    subst (λ l. Perm (l ++ or_none (lookup users resp)) (s ++ [])) same
      (subst (λ r. Perm (s ++ or_none (lookup users r)) (s ++ [])) none_left (Perm.refl (s ++ [])))
trickle-accounts (w ∷ ws) s left resp e =
    let same : s ++ w ∷ [] ≡ left = ap (λ r. r.0) e in
    let rest : (users, ws) ∷ [] ≡ resp = ground arith in
    subst (λ l. Perm (l ++ or_none (lookup users resp)) (s ++ w ∷ ws)) same
      (subst (λ r. Perm ((s ++ w ∷ []) ++ or_none (lookup users r)) (s ++ w ∷ ws)) rest
        (subst (Perm ((s ++ w ∷ []) ++ ws)) (append_assoc s (w ∷ []) ws)
          (Perm.refl ((s ++ w ∷ []) ++ ws))))

trickle-IsHonest : IsHonest trickle users (λ s. s)
unfolding lookup ◌≟◌
trickle-IsHonest = record { accounts = trickle-accounts }

abbrev two : List WriteRequest
two = put_request ann ∷ delete_request bob ∷ []

execute_batch_write-applied_example : Perm two two × (length two ≡ length two)
unfolding program in_turn
execute_batch_write-applied_example =
    execute_batch_write-applied trickle users alive (λ s. s) trickle-IsHonest in_turn two []
      (record { backend = two; completed = 2; reported = (2, 2) ∷ [] }) refl

chunk_requests_example :
    (concat (chunk_requests two 1) ≡ two)
    × AllWithin 1 (chunk_requests two 1)
    × (1 * length (chunk_requests two 1) < length two + 1)
chunk_requests_example = chunk_requests_lem two 1 (omega arith)

Drains-send_batch_write_example : send_batch_write trickle users alive two [] ≡ (two, ok tt)
unfolding program
Drains-send_batch_write_example =
    Drains-send_batch_write trickle users alive {n = 1} {items = two} {s = []} {end = two}
      (λ a d. refl) (omega arith)
      (more ((users, delete_request bob ∷ []) ∷ []) (delete_request bob) [] refl refl
        (last ((users, []) ∷ []) refl refl))

send_batch_write-ne-out_of_fuel_example :
    (send_batch_write trickle users alive two []).1 ≢ err out_of_fuel
unfolding program
send_batch_write-ne-out_of_fuel_example =
    send_batch_write-ne-out_of_fuel trickle users alive two []
      (λ request t. writes_end (or_none (lookup users request)) t)

abbrev before : TableData
before = holding [] []

after_two : TableData
unfolding writes_in
after_two = (writes_in two before).0

two_written : writes_in two before ≡ (after_two, ok tt)
unfolding writes_in after_two extract_key extract_key_from_def get_attr key_string ◌≟◌ put_stored
    update_gsis
two_written = refl

users_there : table users fresh ≡ ok before
unfolding table lookup ◌≟◌
users_there = refl

execute_batch_write-writes_in_example :
    (last : Progress MemoryBackend) × ((execute_batch_write memdb_writer in_turn users alive two
          fresh
        ≡ (last, ok tt))
      × ((table users last.backend ≡ ok after_two)
          × ((last.completed ≡ length two)
              × ((other : Bytes)
                  → (users ≟ other) ≡ false
                  → lookup other last.backend ≡ lookup other fresh))))
execute_batch_write-writes_in_example =
    execute_batch_write-writes_in in_turn users alive two fresh before after_two users_there
      two_written
