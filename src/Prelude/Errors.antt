-- ===== src/Prelude/Errors.antt =====
-- Go's (value, error) results. Error messages are not modelled; what is kept is the sentinel that
-- a caller can test for.
use Prim.Native.Nat.{ℕ}
use mathlib.Core.Path.{◌≡◌, refl}
use mathlib.Core.Logic.{◌⊎◌, inl, inr}
use mathlib.Core.Bool.{Bool}
use mathlib.Core.List.{List}

pub data Error : Type 0 where
  -- dynago.ErrValidation and dynago.ErrConditionFailed
  validation condition_failed : Error
  -- a plain error of a parser or an evaluator
  expression : Error
  -- dynago.TxCancelledError: which operations failed their condition
  tx_cancelled : List Bool → Error
  -- dynago.ErrNotFound, and the error of a context that is done
  not_found cancelled : Error
  -- how many items a backend left unprocessed at the last attempt
  unprocessed : ℕ → Error
  -- a Go run-time panic
  panic : Error
  -- has no counterpart in the program
  out_of_fuel : Error

pub data Result {ℓ} (Value : Type ℓ) : Type ℓ where
  ok : Value → Result Value
  err : Error → Result Value

infixl 5 ◌>>=◌ ◌>>◌
-- `if err != nil { return err }` before the next step
abbrev pub ◌>>=◌ {ℓ κ} : {In : Type ℓ} {Out : Type κ} → Result In → (In → Result Out) → Result Out
◌>>=◌ (err failure) next = err failure
◌>>=◌ (ok done) next = next done

abbrev pub ◌>>◌ {ℓ κ} : {In : Type ℓ} {Out : Type κ} → Result In → Result Out → Result Out
first >> second = first >>= λ _. second

-- A chain that succeeds: its first step succeeded, and so did the rest on its value.
pub >>=-eq-ok {ℓ κ} :
    {In : Type ℓ} {Out : Type κ} (first : Result In) (next : In → Result Out) {out : Out}
    → (first >>= next) ≡ ok out
    → (done : In) × (first ≡ ok done) × (next done ≡ ok out)
>>=-eq-ok (err failure) next e = cc
>>=-eq-ok (ok done) next e = (done, refl, e)

pub Result-cases {ℓ} :
    {A : Type ℓ} (r : Result A) → ((a : A) × (r ≡ ok a)) ⊎ ((e : Error) × (r ≡ err e))
Result-cases (ok a) = inl (a, refl)
Result-cases (err e) = inr (e, refl)
