-- ===== src/Memdb/Writes/Atomic.antt =====
-- memdb/memdb.go: the conditions and the writes of TransactWriteItems.
use dynago.Prelude.{
  ◌≤◌, ◌≡◌, ◌⊎◌, refl, sym, ◌∙◌, Bool, true, false, List, [], ◌∷◌, ltb, length, if_yes, if_no,
  Bool-cases, Result-cases, inl, inr, Error, Result, ok, err, validation, tx_cancelled, >>=-eq-ok,
  arith,
}
use mathlib.Core.Path.{subst}
use dynago.Backend.{TransactWriteItem}
use dynago.Expr.Floats.{FloatOps}
use dynago.Memdb.Schema.{MemoryBackend}
use dynago.Memdb.Writes.Single.{on_table}
use dynago.Memdb.Writes.Transact.{
  condition_holds, first_pass, any_failed, apply_in, second_pass, after_checks, tx_reasons,
  transact_write_items, tx_write_table_name,
}

-- The condition of every operation holds of one backend.
abbrev pub AllHold : FloatOps → MemoryBackend → List TransactWriteItem → Type 0
AllHold F m [] = Unit
AllHold F m (twi ∷ twis) = (condition_holds F twi m ≡ ok true) × AllHold F m twis

-- The operations of a list applied one after the other, all of them successfully.
pub data Applied (F : FloatOps)
    : List TransactWriteItem → MemoryBackend → MemoryBackend → Type 0 where
  done : {m : MemoryBackend} → Applied F [] m m
  step :
      {twi : TransactWriteItem} {twis : List TransactWriteItem} {m m' : MemoryBackend}
      → (on_table (tx_write_table_name twi) (apply_in F twi) m).1 ≡ ok tt
      → Applied F twis (on_table (tx_write_table_name twi) (apply_in F twi) m).0 m'
      → Applied F (twi ∷ twis) m m'

ok_err :
    {m m' : MemoryBackend} {x : Error}
    → ◌≡◌ {A = MemoryBackend × Result (Unit {0})} (m, ok tt) (m', err x)
    → ⊥
ok_err h = cc

few_false : (twis : List TransactWriteItem) → length twis ≤ 100 → ltb 100 (length twis) ≡ false
few_false twis few = ground arith

module _ (F : FloatOps) where
  first_pass_sound :
      (twis : List TransactWriteItem) (m : MemoryBackend) (reasons : List Bool)
      → first_pass F twis m ≡ ok reasons
      → any_failed reasons ≡ false
      → AllHold F m twis
  unfolding first_pass any_failed
  first_pass_sound [] m reasons e passed = tt
  first_pass_sound (twi ∷ twis) m reasons e passed =
      let (holds, checked, e₁) = >>=-eq-ok (condition_holds F twi m) _ e in
      let (later, rest, e₂) = >>=-eq-ok (first_pass F twis m) _ e₁ in
      (ground arith, first_pass_sound twis m later rest (ground arith))

  second_pass-Applied :
      (twis : List TransactWriteItem) (m m' : MemoryBackend)
      → second_pass F twis m ≡ (m', ok tt)
      → Applied F twis m m'
  unfolding second_pass
  second_pass-Applied [] m m' e = subst (Applied F [] m) (cc e) done
  second_pass-Applied (twi ∷ twis) m m' e =
      elim (Result-cases (on_table (tx_write_table_name twi) (apply_in F twi) m).1) [
        | inl (u, fine) ↦
            step fine (second_pass-Applied twis _ m' (sym (rw (fine, second_pass)) ∙ e))
        | inr (x, failed) ↦
            let stopped : second_pass F (twi ∷ twis) m
                ≡ ((on_table (tx_write_table_name twi) (apply_in F twi) m).0, err x) =
              rw (failed, second_pass) in
            absurd (ok_err (sym e ∙ stopped))
      ]

  Applied-second_pass :
      {twis : List TransactWriteItem} {m m' : MemoryBackend}
      → Applied F twis m m'
      → second_pass F twis m ≡ (m', ok tt)
  unfolding second_pass
  Applied-second_pass done = refl
  Applied-second_pass (step e later) = rw (e, second_pass) (Applied-second_pass later)

  resolved :
      (twis : List TransactWriteItem) (m : MemoryBackend) (reasons : List Bool)
      → tx_reasons F twis m ≡ ok reasons
      → first_pass F twis m ≡ ok reasons
  unfolding tx_reasons
  resolved twis m reasons e = (>>=-eq-ok _ (λ _. first_pass F twis m) e).2

  -- The outcome of a transaction of at most 100 operations, by what comes before its first write.
  transact_few :
      (twis : List TransactWriteItem) (m : MemoryBackend)
      → ltb 100 (length twis) ≡ false
      → transact_write_items F twis m ≡ after_checks F twis (tx_reasons F twis m) m
  unfolding transact_write_items
  transact_few twis m few = if_no (ltb 100 (length twis)) (m, err validation) _ few

  transact_many :
      (twis : List TransactWriteItem) (m : MemoryBackend)
      → ltb 100 (length twis) ≡ true
      → transact_write_items F twis m ≡ (m, err validation)
  unfolding transact_write_items
  transact_many twis m many =
      if_yes (ltb 100 (length twis)) (m, err validation)
        (after_checks F twis (tx_reasons F twis m) m) many

  after_checks-commits :
      (twis : List TransactWriteItem) (m m' : MemoryBackend) (r : Result (List Bool))
      → tx_reasons F twis m ≡ r
      → after_checks F twis r m ≡ (m', ok tt)
      → AllHold F m twis × Applied F twis m m'
  unfolding after_checks
  after_checks-commits twis m m' (err x) checked e = absurd (ok_err (sym e))
  after_checks-commits twis m m' (ok reasons) checked e = elim (Bool-cases (any_failed reasons)) [
    | inl failed ↦ absurd (
        ok_err (
          sym e
          ∙ if_yes (any_failed reasons) (m, err (tx_cancelled reasons)) (second_pass F twis m)
              failed))
    | inr passed ↦ (
      first_pass_sound twis m reasons (resolved twis m reasons checked) passed,
      second_pass-Applied twis m m' (
          sym (
            if_no (any_failed reasons) (m, err (tx_cancelled reasons)) (second_pass F twis m)
              passed)
          ∙ e),
    )
  ]

  -- A transaction that succeeds is atomic: the condition of every operation held of the backend
  -- before it, not of what its earlier operations made of it, and the backend after it is the result
  -- of all its operations, applied in their order.
  pub transact_commits :
      (twis : List TransactWriteItem) (m m' : MemoryBackend)
      → transact_write_items F twis m ≡ (m', ok tt)
      → AllHold F m twis × Applied F twis m m'
  transact_commits twis m m' e = elim (Bool-cases (ltb 100 (length twis))) [
    | inl many ↦ absurd (ok_err (sym e ∙ transact_many twis m many))
    | inr few ↦
        after_checks-commits twis m m' (tx_reasons F twis m) refl
          (sym (transact_few twis m few) ∙ e)
  ]

  -- A transaction whose operations can be applied one after the other is all or nothing: either it
  -- succeeds, all conditions held, and the backend is the result of its operations, or it returns an
  -- error and the backend is as before.
  pub transact_all_or_nothing :
      (twis : List TransactWriteItem) (m m' : MemoryBackend)
      → length twis ≤ 100
      → Applied F twis m m'
      → ((transact_write_items F twis m ≡ (m', ok tt)) × AllHold F m twis)
        ⊎ ((x : Error) × (transact_write_items F twis m ≡ (m, err x)))
  unfolding after_checks
  transact_all_or_nothing twis m m' few applied = elim (Result-cases (tx_reasons F twis m)) [
    | inr (x, failed) ↦
        inr (x, transact_few twis m (few_false twis few) ∙ rw (failed, after_checks))
    | inl (reasons, checked) ↦ elim (Bool-cases (any_failed reasons)) [
      | inl cancelled ↦ inr (
        tx_cancelled reasons,
        transact_few twis m (few_false twis few)
            ∙ rw (checked, after_checks) (if_yes _ _ _ cancelled),
      )
      | inr passed ↦ inl (
        transact_few twis m (few_false twis few)
            ∙ rw (checked, after_checks) (if_no _ _ _ passed ∙ Applied-second_pass applied),
        first_pass_sound twis m reasons (resolved twis m reasons checked) passed,
      )
    ]
  ]
