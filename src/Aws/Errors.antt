-- ===== src/Aws/Errors.antt =====
-- awsbackend/aws.go: errors of the SDK as errors of the library.
use dynago.Prelude.{
  Bool, true, false, not, ◌||◌, ◌&&◌, if◌then◌else◌, List, [], ◌∷◌, Bytes, bytes, Option, none,
  some, contains, ◌≡◌, refl, Bool-cases, Option-cases, inl, inr, ◌≟◌,
}
use dynago.Client.Errors.{
  Sentinel, err_not_found, err_condition_failed, err_validation, err_transaction_cancelled,
  TxCancelReason, GoError, caused, tx_cancelled_error, foreign, same_sentinel, has_failed_condition,
  tx_cancelled_is, error_is,
}

-- types.CancellationReason
pub record CancellationReason : Type 0 where
  pub code : Option Bytes
  pub message : Option Bytes

-- An error of the SDK: what errors.As finds in it, its text, and errors.Is.
pub record SdkErrors : Type 1 where
  pub Failure : Type 0
  pub as_conditional_check_failed : Failure → Bool
  pub as_transaction_canceled : Failure → Option (List CancellationReason)
  pub as_resource_not_found : Failure → Bool
  pub text : Failure → Bytes
  pub is : Failure → Sentinel → Bool

unfoldable pub pointed_text : Option Bytes → Bytes
pointed_text none = []
pointed_text (some s) = s

unfoldable pub reasons_of : List CancellationReason → List TxCancelReason
unfolding pointed_text
reasons_of [] = []
reasons_of (r ∷ more) =
    record { code = pointed_text r.code; message = pointed_text r.message } ∷ reasons_of more

-- Whether a code of the SDK is there and says that a condition failed.
unfoldable pub is_failed_check : Option Bytes → Bool
is_failed_check none = false
is_failed_check (some code) = code ≟ bytes "ConditionalCheckFailed"

-- Whether a reason that the SDK gives for a cancelled transaction has that code.
unfoldable pub has_failed_check : List CancellationReason → Bool
unfolding is_failed_check
has_failed_check [] = false
has_failed_check (r ∷ more) = is_failed_check r.code || has_failed_check more

unfoldable pub names_condition : Option (List CancellationReason) → Bool
unfolding has_failed_check
names_condition none = false
names_condition (some reasons) = has_failed_check reasons

failed_code :
    (code : Option Bytes)
    → (pointed_text code ≟ bytes "ConditionalCheckFailed") ≡ is_failed_check code
unfolding pointed_text is_failed_check ◌≟◌
failed_code none = refl
failed_code (some code) = refl

has_failed_condition-reasons_of :
    (reasons : List CancellationReason)
    → has_failed_condition (reasons_of reasons) ≡ has_failed_check reasons
unfolding has_failed_condition reasons_of has_failed_check
has_failed_condition-reasons_of [] = refl
has_failed_condition-reasons_of (r ∷ more) =
    rw (failed_code r.code, has_failed_condition-reasons_of more) refl

module _ (S : SdkErrors) where
  -- The tests of wrapAWSError after the transaction
  unfoldable pub wrap_plain : S.Failure → GoError S.Failure
  unfolding contains
  wrap_plain e =
      if S.as_resource_not_found e
      then caused err_validation (foreign e) (bytes "table not found")
      else if contains (S.text e) (bytes "ValidationException")
      then caused err_validation (foreign e) []
      else foreign e

  -- wrapAWSError
  unfoldable pub wrap_aws_error : S.Failure → GoError S.Failure
  unfolding reasons_of wrap_plain
  wrap_aws_error e =
      if S.as_conditional_check_failed e
      then caused err_condition_failed (foreign e) []
      else elim (S.as_transaction_canceled e) [
        | some reasons ↦ tx_cancelled_error (reasons_of reasons)
        | none ↦ wrap_plain e
      ]

  unfoldable pub is_cancellation : Option (List CancellationReason) → Bool
  is_cancellation none = false
  is_cancellation (some reasons) = true

  -- Whether e is of the third group of errors that wrapAWSError tells apart
  unfoldable pub is_rejection : S.Failure → Bool
  unfolding contains
  is_rejection e = S.as_resource_not_found e || contains (S.text e) (bytes "ValidationException")

  -- What a caller tests for is answered by what the error of the SDK is.
  abbrev pub IsClassified : GoError S.Failure → Bool → Bool → Bool → Type 0
  IsClassified err condition cancellation rejection =
      (error_is S.is err err_condition_failed ≡ condition)
      × (error_is S.is err err_transaction_cancelled ≡ cancellation)
      × (error_is S.is err err_validation ≡ rejection)
      × (error_is S.is err err_not_found ≡ false)

  module _ (separate : (e : S.Failure) (s : Sentinel) → S.is e s ≡ false) where
    wrap_plain-IsClassified :
        (e : S.Failure) → IsClassified (wrap_plain e) false false (is_rejection e)
    unfolding error_is wrap_plain same_sentinel is_rejection
    wrap_plain-IsClassified e = elim (Bool-cases (S.as_resource_not_found e)) [
      | inl found ↦ (
        rw (found) (separate e err_condition_failed),
        rw (found) (separate e err_transaction_cancelled),
        rw (found) refl,
        rw (found) (separate e err_not_found),
      )
      | inr other ↦ elim (Bool-cases (contains (S.text e) (bytes "ValidationException"))) [
        | inl named ↦ (
          rw (other, named) (separate e err_condition_failed),
          rw (other, named) (separate e err_transaction_cancelled),
          rw (other, named) refl,
          rw (other, named) (separate e err_not_found),
        )
        | inr unnamed ↦ (
          rw (other, unnamed) (separate e err_condition_failed),
          rw (other, unnamed) (separate e err_transaction_cancelled),
          rw (other, unnamed) (separate e err_validation),
          rw (other, unnamed) (separate e err_not_found),
        )
      ]
    ]

    -- If no error of the SDK is one of the library's sentinels, what wrapAWSError makes of an error e is
    -- ErrConditionFailed exactly if e is a failed check of a condition, or a cancelled transaction one of
    -- whose reasons has the code ConditionalCheckFailed; it is ErrTransactionCancelled exactly if e is no
    -- failed check and is a cancelled transaction; it is ErrValidation exactly if e is neither and is a
    -- missing table or has ValidationException in its text; and it is never ErrNotFound.
    pub wrap_aws_error-IsClassified :
        (e : S.Failure)
        → IsClassified
            (wrap_aws_error e)
            (S.as_conditional_check_failed e || names_condition (S.as_transaction_canceled e))
            (not (S.as_conditional_check_failed e) && is_cancellation (S.as_transaction_canceled e))
            (not (S.as_conditional_check_failed e)
              && not (is_cancellation (S.as_transaction_canceled e))
              && is_rejection e)
    unfolding wrap_aws_error error_is same_sentinel names_condition is_cancellation tx_cancelled_is
    wrap_aws_error-IsClassified e = elim (Bool-cases (S.as_conditional_check_failed e)) [
      | inl failed ↦ (
        rw (failed) refl,
        rw (failed) (separate e err_transaction_cancelled),
        rw (failed) (separate e err_validation),
        rw (failed) (separate e err_not_found),
      )
      | inr passed ↦ elim (Option-cases (S.as_transaction_canceled e)) [
        | inl none_found ↦ (
          rw (passed, none_found) (wrap_plain-IsClassified e).0,
          rw (passed, none_found) (wrap_plain-IsClassified e).1,
          rw (passed, none_found) (wrap_plain-IsClassified e).2,
          rw (passed, none_found) (wrap_plain-IsClassified e).3,
        )
        | inr (reasons, found) ↦ (
          rw (passed, found) (has_failed_condition-reasons_of reasons),
          rw (passed, found) refl,
          rw (passed, found) refl,
          rw (passed, found) refl,
        )
      ]
    ]
