-- ===== src/Client/Batch/Chunks.antt =====
-- batch.go: chunkWriteRequests, and the chunks of BatchGet.
use dynago.Prelude.{
  ℕ, zero, suc, ◌+◌, ◌*◌, ◌≤◌, ◌<◌, ◌≡◌, refl, ap, ◌∙◌, List, [], ◌∷◌, ◌++◌, arith, length, take,
  drop, take-append-drop, length-take, length-drop, leb, Bool-cases, inl, inr,
}

-- batch.go: maxBatchWriteItems, maxBatchGetItems
abbrev pub max_batch_write_items : ℕ
max_batch_write_items = 25

abbrev pub max_batch_get_items : ℕ
max_batch_get_items = 100

module _ {ℓ} {A : Type ℓ} where
  -- The loop over i, on the items from i on; the fuel bounds its rounds.
  chunks_from : ℕ → ℕ → List A → List (List A)
  chunks_from zero size items = []
  chunks_from (suc fuel) size [] = []
  chunks_from (suc fuel) size (x ∷ items) =
      take size (x ∷ items) ∷ chunks_from fuel size (drop size (x ∷ items))

  -- chunkWriteRequests
  unfoldable pub chunk_requests : List A → ℕ → List (List A)
  unfolding chunks_from
  chunk_requests items size = chunks_from (length items) size items

  unfoldable pub concat : List (List A) → List A
  concat [] = []
  concat (c ∷ chunks) = c ++ concat chunks

  -- Every chunk has between 1 and `size` items.
  abbrev pub AllWithin : ℕ → List (List A) → Type 0
  AllWithin size [] = Unit
  AllWithin size (c ∷ chunks) = (0 < length c) × (length c ≤ size) × AllWithin size chunks

  concat-chunks_from :
      (fuel size : ℕ) (items : List A)
      → 0 < size
      → length items ≤ fuel
      → concat (chunks_from fuel size items) ≡ items
  unfolding chunks_from concat
  concat-chunks_from zero size [] h enough = refl
  concat-chunks_from zero size (x ∷ items) h enough = absurd (omega (arith, enough))
  concat-chunks_from (suc fuel) size [] h enough = refl
  concat-chunks_from (suc fuel) size (x ∷ items) h enough =
      ap (take size (x ∷ items) ++◌) (
        concat-chunks_from fuel size (drop size (x ∷ items)) h
          (omega (arith, length-drop size (x ∷ items), enough, h)))
      ∙ take-append-drop size (x ∷ items)

  chunks_from-AllWithin :
      (fuel size : ℕ) (items : List A) → 0 < size → AllWithin size (chunks_from fuel size items)
  unfolding chunks_from
  chunks_from-AllWithin zero size items h = tt
  chunks_from-AllWithin (suc fuel) size [] h = tt
  chunks_from-AllWithin (suc fuel) size (x ∷ items) h = (
    omega (arith, length-take size (x ∷ items), h),
    omega (arith, length-take size (x ∷ items)),
    chunks_from-AllWithin fuel size (drop size (x ∷ items)) h,
  )

  no_chunks : (fuel size : ℕ) (items : List A) → length items ≡ 0 → chunks_from fuel size items ≡ []
  unfolding chunks_from
  no_chunks zero size items h = refl
  no_chunks (suc fuel) size [] h = refl
  no_chunks (suc fuel) size (x ∷ items) h = absurd (omega (arith, h))

  length-chunks_from :
      (fuel size : ℕ) (items : List A)
      → 0 < size
      → size * length (chunks_from fuel size items) < length items + size
  unfolding chunks_from
  length-chunks_from zero size items h = omega (arith, h)
  length-chunks_from (suc fuel) size [] h = omega (arith, h)
  length-chunks_from (suc fuel) size (x ∷ items) h =
      let few = length-chunks_from fuel size (drop size (x ∷ items)) h in
      let left = length-drop size (x ∷ items) in
      elim (Bool-cases (leb (suc (length items)) size)) [
        | inl last ↦
            let one : length (chunks_from fuel size (drop size (x ∷ items))) ≡ 0 =
              ap length
                (no_chunks fuel size (drop size (x ∷ items)) (ground (arith, left, last))) in
            omega (arith, ap (λ (l : ℕ). size * l) one)
        | inr more ↦
            let long : size < suc (length items) = ground arith in omega (arith, few, left, long)
      ]

  -- The chunks of a positive size hold all items once and in order, none is empty or longer than
  -- the size, and there are no more of them than needed.
  pub chunk_requests_lem :
      (items : List A) (size : ℕ)
      → 0 < size
      → (concat (chunk_requests items size) ≡ items)
        × AllWithin size (chunk_requests items size)
        × (size * length (chunk_requests items size) < length items + size)
  unfolding chunk_requests
  chunk_requests_lem items size h = (
    concat-chunks_from (length items) size items h (omega arith),
    chunks_from-AllWithin (length items) size items h,
    length-chunks_from (length items) size items h,
  )
