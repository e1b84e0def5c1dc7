-- ===== src/Client/Batch/Applied.antt =====
-- batch.go: what a batch that succeeds has written.
use dynago.Prelude.{
  ℕ, zero, suc, ◌+◌, ◌≡◌, ◌⊎◌, refl, sym, ap, ◌∙◌, false, List, [], ◌∷◌, ◌++◌, Bytes, Assoc, lookup,
  length, length-append, map, inl, inr, Result-cases, Error, Result, ok, err, arith,
}
use mathlib.Core.List.{Perm, append_assoc, append-nil}
use mathlib.Core.List.Perm
use mathlib.Core.Path.{subst}
use dynago.Backend.{WriteRequest}
use dynago.Client.Batch.Chunks.{chunk_requests, chunk_requests_lem, concat, max_batch_write_items}
use dynago.Client.Batch.Writes.{
  ErrGroup, Progress, chunk_context, report, sent, chunk_task, start, execute_batch_write,
}
use dynago.Client.Batch.Retries.{BatchWriter, Context, or_none, send_write_from, send_batch_write}

-- A backend accounts for its writes: `applied` lists what it has written, and a call that succeeds
-- writes what it was given, in some order, but for what it returns as unprocessed.
pub record IsHonest {S : Type 0} (B : BatchWriter S) (name : Bytes)
    (applied : S → List WriteRequest) : Type 0 where
  pub accounts :
      (pending : List WriteRequest) (s left : S) (resp : Assoc (List WriteRequest))
      → B.batch_write ((name, pending) ∷ []) s ≡ (left, ok resp)
      → Perm (applied left ++ or_none (lookup name resp)) (applied s ++ pending)

err_ok : {x : Error} → ◌≡◌ {A = Result (Unit {0})} (err x) (ok tt) → ⊥
err_ok e = cc

pub List-cases {ℓ} : {A : Type ℓ} (l : List A) → (l ≡ []) ⊎ ((x : A) × (xs : List A) × (l ≡ x ∷ xs))
List-cases [] = inl refl
List-cases (x ∷ xs) = inr (x, xs, refl)

module _ {S : Type 0} (B : BatchWriter S) (name : Bytes) (done : Context)
    (applied : S → List WriteRequest) (honest : IsHonest B name applied) where
  sent_from :
      (fuel attempt : ℕ) (pending : List WriteRequest) (s end : S)
      → send_write_from B name done fuel attempt pending s ≡ (end, ok tt)
      → Perm (applied end) (applied s ++ pending)
  unfolding send_write_from
  sent_from zero attempt pending s end e = absurd (ground arith)
  sent_from (suc fuel) attempt pending s end e =
      let call = B.batch_write ((name, pending) ∷ []) s in
      elim (Result-cases call.1) [
        | inr (x, failed) ↦ absurd (ground arith)
        | inl (resp, fine) ↦
            let step = honest.accounts pending s call.0 resp (ap (λ r. (call.0, r)) fine) in
            elim (List-cases (or_none (lookup name resp))) [
              | inl nothing ↦
                  let all_done : call.0 ≡ end = ground arith in
                  subst (λ t. Perm (applied t) (applied s ++ pending)) all_done
                    (subst (λ l. Perm l (applied s ++ pending)) (append-nil (applied call.0))
                      (subst (λ l. Perm (applied call.0 ++ l) (applied s ++ pending)) nothing step))
              | inr (w, ws, rest) ↦
                  let again : send_write_from B name done fuel (suc attempt) (w ∷ ws) call.0
                      ≡ (end, ok tt) =
                    ground arith in
                  Perm.trans (sent_from fuel (suc attempt) (w ∷ ws) call.0 end again)
                    (subst (λ l. Perm (applied call.0 ++ l) (applied s ++ pending)) rest step)
            ]
      ]

module _ {S : Type 0} (B : BatchWriter S) (name : Bytes) (done : Context)
    (applied : S → List WriteRequest) (honest : IsHonest B name applied) where
  -- A chunk whose context is not done and that succeeds.
  task_done :
      (total : ℕ) (chunk : List WriteRequest) (t : Progress S)
      → (chunk_task B name done total chunk false t).1 ≡ ok tt
      → Perm
          (applied (chunk_task B name done total chunk false t).0.backend)
          (applied t.backend ++ chunk)
        × ((chunk_task B name done total chunk false t).0.completed ≡ t.completed + length chunk)
  unfolding chunk_task report sent send_batch_write
  task_done total chunk t e =
      let call = send_batch_write B name (chunk_context done false) chunk t.backend in
      elim (Result-cases call.1) [
        | inr (x, failed) ↦ absurd (ground arith)
        | inl (u, fine) ↦
            let whole =
              sent_from B name (chunk_context done false) applied honest 6 0 chunk t.backend call.0
                (ap (λ r. (call.0, r)) fine) in
            (rw (fine, report) whole, rw (fine, report))
      ]

  module _ (G : ErrGroup (Progress S)) where
    tasks_done :
        (total : ℕ) (chunks : List (List WriteRequest)) (t end : Progress S)
        → G.wait (map (chunk_task B name done total) chunks) t ≡ (end, ok tt)
        → Perm (applied end.backend) (applied t.backend ++ concat chunks)
          × (end.completed ≡ t.completed + length (concat chunks))
    unfolding concat
    tasks_done total [] t end e =
        let same : t ≡ end = ap (λ r. r.0) (sym (G.wait-nil t) ∙ e) in
        subst
          (λ (x : Progress S).
            Perm (applied x.backend) (applied t.backend ++ []) × (x.completed ≡ t.completed + 0))
          same
          (
            subst (Perm (applied t.backend)) (sym (append-nil (applied t.backend)))
                (Perm.refl (applied t.backend)),
            omega arith,
          )
    tasks_done total (c ∷ chunks) t end e =
        let f = chunk_task B name done total c in
        let fs = map (chunk_task B name done total) chunks in
        elim (Result-cases (f false t).1) [
          | inr (x, failed) ↦ absurd (err_ok (sym (G.wait-err f fs t x failed) ∙ ap (λ r. r.1) e))
          | inl (u, fine) ↦
              let (written, counted) = task_done total c t fine in
              let (rest, count) =
                tasks_done total chunks (f false t).0 end (sym (G.wait-ok f fs t fine) ∙ e) in
              (
                Perm.trans rest (
                    subst (Perm (applied (f false t).0.backend ++ concat chunks))
                      (append_assoc (applied t.backend) c (concat chunks))
                      (Perm.append_right (concat chunks) written)),
                omega (arith, count, counted, length-append c (concat chunks)),
              )
        ]

    -- A batch that succeeds has written every request once and nothing else, in some order, and has
    -- counted every request, if the backend accounts for its writes.
    pub execute_batch_write-applied :
        (requests : List WriteRequest) (s : S) (end : Progress S)
        → execute_batch_write B G name done requests s ≡ (end, ok tt)
        → Perm (applied end.backend) (applied s ++ requests) × (end.completed ≡ length requests)
    unfolding execute_batch_write
    execute_batch_write-applied requests s end e =
        let (all, sizes, few) = chunk_requests_lem requests max_batch_write_items (omega arith) in
        let (written, counted) =
          tasks_done (length requests) (chunk_requests requests max_batch_write_items)
            (start B G name done s) end e in
        (
          subst (λ l. Perm (applied end.backend) (applied s ++ l)) all written,
          omega (arith, counted, ap length all),
        )
