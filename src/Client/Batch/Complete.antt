-- ===== src/Client/Batch/Complete.antt =====
-- batch.go: how a chunk ends.
use dynago.Prelude.{
  ℕ, zero, suc, ◌+◌, ◌≤◌, ◌<◌, ◌≡◌, ◌≢◌, false, List, [], ◌∷◌, Bytes, Assoc, lookup, leb, inl, inr,
  Bool-cases, Result-cases, ok, err, out_of_fuel, arith,
}
use dynago.Backend.{WriteRequest}
use dynago.Client.Batch.Retries.{
  BatchWriter, Context, max_retries, backoff, or_none, send_write_from, send_batch_write,
}
use dynago.Client.Batch.Applied.{List-cases}

-- A call that leaves nothing ends the loop, another one is retried; `n` calls are retried.
pub data Drains {S : Type 0} (B : BatchWriter S) (name : Bytes)
    : ℕ → List WriteRequest → S → S → Type 0 where
  last :
      {pending : List WriteRequest} {s : S} (resp : Assoc (List WriteRequest))
      → (B.batch_write ((name, pending) ∷ []) s).1 ≡ ok resp
      → or_none (lookup name resp) ≡ []
      → Drains B name 0 pending s (B.batch_write ((name, pending) ∷ []) s).0
  more :
      {n : ℕ} {pending : List WriteRequest} {s end : S} (resp : Assoc (List WriteRequest))
      (w : WriteRequest) (ws : List WriteRequest)
      → (B.batch_write ((name, pending) ∷ []) s).1 ≡ ok resp
      → or_none (lookup name resp) ≡ w ∷ ws
      → Drains B name n (w ∷ ws) (B.batch_write ((name, pending) ∷ []) s).0 end
      → Drains B name (suc n) pending s end

module _ {S : Type 0} (B : BatchWriter S) (name : Bytes) (done : Context) where
  drained_from :
      {n : ℕ} {pending : List WriteRequest} {s end : S} (fuel attempt : ℕ)
      → ((a d : ℕ) → done a d ≡ false)
      → n < fuel
      → attempt + n ≤ max_retries
      → Drains B name n pending s end
      → send_write_from B name done fuel attempt pending s ≡ (end, ok tt)
  unfolding send_write_from
  drained_from zero attempt alive more_fuel few d = absurd (omega (arith, more_fuel))
  drained_from (suc fuel) attempt alive more_fuel few (last resp fine nothing) = ground arith
  drained_from {n = suc n} {pending = pending} {s = s} {end = end} (suc fuel) attempt alive
        more_fuel few (more resp w ws fine rest later) =
      ground (
        arith,
        alive attempt (backoff attempt),
        drained_from {n = n} {pending = w ∷ ws} {s = (B.batch_write ((name, pending) ∷ []) s).0}
            {end = end} fuel (suc attempt) alive (omega (arith, more_fuel)) (omega (arith, few))
            later,
      )

  -- A batch ends well whenever the backend takes all of its items within five retries and the
  -- context does not end.
  pub Drains-send_batch_write :
      {n : ℕ} {items : List WriteRequest} {s end : S}
      → ((a d : ℕ) → done a d ≡ false)
      → n ≤ max_retries
      → Drains B name n items s end
      → send_batch_write B name done items s ≡ (end, ok tt)
  unfolding send_batch_write
  Drains-send_batch_write alive few d =
      drained_from 6 0 alive (omega (arith, few)) (omega (arith, few)) d

  ends_from :
      (fuel attempt : ℕ) (pending : List WriteRequest) (s : S)
      → ((request : Assoc (List WriteRequest)) (t : S)
          → (B.batch_write request t).1 ≢ err out_of_fuel)
      → max_retries < fuel + attempt
      → 0 < fuel
      → (send_write_from B name done fuel attempt pending s).1 ≢ err out_of_fuel
  unfolding send_write_from
  ends_from zero attempt pending s real enough some_fuel e = absurd (omega (arith, some_fuel))
  ends_from (suc fuel) attempt pending s real enough some_fuel e =
      let call = B.batch_write ((name, pending) ∷ []) s in
      elim (Result-cases call.1) [
        | inr (x, failed) ↦ real ((name, pending) ∷ []) s (ground arith)
        | inl (resp, fine) ↦ elim (List-cases (or_none (lookup name resp))) [
          | inl nothing ↦ ground arith
          | inr (w, ws, rest) ↦ elim (Bool-cases (leb max_retries attempt)) [
            | inl late ↦ ground arith
            | inr early ↦ elim (Bool-cases (done attempt (backoff attempt))) [
              | inl over ↦ ground arith
              | inr alive ↦
                  ends_from fuel (suc attempt) (w ∷ ws) call.0 real (omega (arith, enough))
                    (ground arith) (ground arith)
            ]
          ]
        ]
      ]

  -- A batch ends: six calls are enough, whatever the backend returns and whenever the context ends.
  pub send_batch_write-ne-out_of_fuel :
      (items : List WriteRequest) (s : S)
      → ((request : Assoc (List WriteRequest)) (t : S)
          → (B.batch_write request t).1 ≢ err out_of_fuel)
      → (send_batch_write B name done items s).1 ≢ err out_of_fuel
  unfolding send_batch_write
  send_batch_write-ne-out_of_fuel items s real =
      ends_from 6 0 items s real (omega arith) (omega arith)
