-- ===== src/Client/Errors.antt =====
-- errors.go and tx_errors.go: the errors of the library, and what a caller tests them for. The texts
-- of errors are left out, but for the messages.
use dynago.Prelude.{Bool, true, false, ◌||◌, List, [], ◌∷◌, Bytes, bytes, ◌≟◌}

-- ErrNotFound, ErrConditionFailed, ErrValidation, ErrTransactionCancelled
pub data Sentinel : Type 0 where
  err_not_found err_condition_failed err_validation err_transaction_cancelled : Sentinel

pub record TxCancelReason : Type 0 where
  pub code : Bytes
  pub message : Bytes

-- An error: a sentinel, an Error without or with a cause, a TxCancelledError, or an error that is not
-- of the library.
pub data GoError (Foreign : Type 0) : Type 0 where
  sentinel : Sentinel → GoError Foreign
  error : Sentinel → Bytes → GoError Foreign
  caused : Sentinel → GoError Foreign → Bytes → GoError Foreign
  tx_cancelled_error : List TxCancelReason → GoError Foreign
  foreign : Foreign → GoError Foreign

unfoldable pub same_sentinel : Sentinel → Sentinel → Bool
same_sentinel err_not_found err_not_found = true
same_sentinel err_condition_failed err_condition_failed = true
same_sentinel err_validation err_validation = true
same_sentinel err_transaction_cancelled err_transaction_cancelled = true
same_sentinel s t = false

unfoldable pub has_failed_condition : List TxCancelReason → Bool
has_failed_condition [] = false
has_failed_condition (r ∷ more) =
    r.code ≟ bytes "ConditionalCheckFailed" || has_failed_condition more

-- TxCancelledError.Is
unfoldable pub tx_cancelled_is : List TxCancelReason → Sentinel → Bool
unfolding has_failed_condition
tx_cancelled_is reasons err_transaction_cancelled = true
tx_cancelled_is reasons err_condition_failed = has_failed_condition reasons
tx_cancelled_is reasons err_not_found = false
tx_cancelled_is reasons err_validation = false

module _ {Foreign : Type 0} (foreign_is : Foreign → Sentinel → Bool) where
  -- errors.Is on the errors of the library, with Error.Is and Error.Unwrap
  unfoldable pub error_is : GoError Foreign → Sentinel → Bool
  unfolding same_sentinel tx_cancelled_is
  error_is (sentinel s) target = same_sentinel s target
  error_is (error s message) target = same_sentinel s target
  error_is (caused s cause message) target = same_sentinel s target || error_is cause target
  error_is (tx_cancelled_error reasons) target = tx_cancelled_is reasons target
  error_is (foreign e) target = foreign_is e target
