-- ===== src/Tests/Aws.antt =====
-- awsbackend/translate.go over an SDK whose values are the library's own, and wrapAWSError over an SDK
-- with four errors.
use dynago.Prelude.{
  ◌≡◌, refl, ap, List, [], ◌∷◌, Bytes, bytes, Bool, true, false, Option, none, some, ◌≟◌, arith,
}
use dynago.Attribute.{
  AttributeValue, Values, Item, type_none, type_s, type_n, type_b, type_bool, type_null, type_l,
  type_m, type_ss, type_ns, type_bs, no_values, value, no_attrs, attr,
}
use dynago.Aws.Errors.{
  CancellationReason, SdkErrors, IsClassified, wrap_aws_error, names_condition, is_cancellation,
  reasons_of, pointed_text, wrap_aws_error-IsClassified,
}
use dynago.Client.Errors.{has_failed_condition}
use dynago.Aws.RoundTrip.{depth_of, from_aws_item-to_aws_item}
use dynago.Aws.Translate.{
  Member, member_s, member_n, member_b, member_bool, member_null, member_l, member_m, member_ss,
  member_ns, member_bs, unknown_member, Sdk, to_aws_item, from_aws_item,
}

unfoldable values_of : List AttributeValue → Values
values_of [] = no_values
values_of (v ∷ vs) = value v (values_of vs)

unfoldable list_of : Values → List AttributeValue
list_of no_values = []
list_of (value v vs) = v ∷ list_of vs

unfoldable item_of : List (Bytes × AttributeValue) → Item
item_of [] = no_attrs
item_of ((k, v) ∷ m) = attr k v (item_of m)

unfoldable pairs_of : Item → List (Bytes × AttributeValue)
pairs_of no_attrs = []
pairs_of (attr k v m) = (k, v) ∷ pairs_of m

list_of-values_of : (vs : List AttributeValue) → list_of (values_of vs) ≡ vs
unfolding list_of values_of
list_of-values_of [] = refl
list_of-values_of (v ∷ vs) = ap (λ xs. v ∷ xs) (list_of-values_of vs)

pairs_of-item_of : (m : List (Bytes × AttributeValue)) → pairs_of (item_of m) ≡ m
unfolding pairs_of item_of
pairs_of-item_of [] = refl
pairs_of-item_of ((k, v) ∷ m) = ap (λ xs. (k, v) ∷ xs) (pairs_of-item_of m)

unfoldable made : Member AttributeValue → AttributeValue
unfolding values_of item_of
made (member_s s) = type_s s
made (member_n s) = type_n s
made (member_b s) = type_b s
made (member_bool b) = type_bool b
made (member_null b) = type_null b
made (member_l vs) = type_l (values_of vs)
made (member_m m) = type_m (item_of m)
made (member_ss ss) = type_ss ss
made (member_ns ss) = type_ns ss
made (member_bs ss) = type_bs ss
made unknown_member = type_none

unfoldable switch : AttributeValue → Member AttributeValue
unfolding list_of pairs_of
switch (type_s s) = member_s s
switch (type_n s) = member_n s
switch (type_b s) = member_b s
switch (type_bool b) = member_bool b
switch (type_null b) = member_null b
switch (type_l vs) = member_l (list_of vs)
switch (type_m m) = member_m (pairs_of m)
switch (type_ss ss) = member_ss ss
switch (type_ns ss) = member_ns ss
switch (type_bs ss) = member_bs ss
switch type_none = unknown_member

switch-made : (m : Member AttributeValue) → switch (made m) ≡ m
unfolding switch made
switch-made (member_s s) = refl
switch-made (member_n s) = refl
switch-made (member_b s) = refl
switch-made (member_bool b) = refl
switch-made (member_null b) = refl
switch-made (member_l vs) = ap member_l (list_of-values_of vs)
switch-made (member_m m) = ap member_m (pairs_of-item_of m)
switch-made (member_ss ss) = refl
switch-made (member_ns ss) = refl
switch-made (member_bs ss) = refl
switch-made unknown_member = refl

abbrev own_values : Sdk
own_values = record { Value = AttributeValue; make = made; switch = switch }

abbrev order : Item
order = attr (bytes "ID") (type_s (bytes "o1")) (
    attr (bytes "Lines")
      (type_l (
        value (type_m (attr (bytes "Price") (type_n (bytes "12")) no_attrs))
          (value (type_null false) no_values)))
      (attr (bytes "Tags") (type_ss (bytes "new" ∷ [])) no_attrs))

from_aws_item-to_aws_item_example :
    from_aws_item own_values 3 (to_aws_item own_values order) ≡ some order
unfolding depth_of
from_aws_item-to_aws_item_example =
    from_aws_item-to_aws_item own_values switch-made order 3 (omega arith)
      (tt, (((tt, tt), (tt, tt)), (tt, tt)))

data Failure : Type 0 where
  check_failed canceled not_found throttled : Failure

abbrev failed_reason : CancellationReason
failed_reason = record { code = some (bytes "ConditionalCheckFailed"); message = none }

abbrev none_reason : CancellationReason
none_reason = record { code = none; message = none }

unfoldable is_check_failed : Failure → Bool
is_check_failed check_failed = true
is_check_failed e = false

unfoldable reasons_for : Failure → Option (List CancellationReason)
reasons_for canceled = some (none_reason ∷ failed_reason ∷ [])
reasons_for e = none

unfoldable is_table_missing : Failure → Bool
is_table_missing not_found = true
is_table_missing e = false

abbrev four_errors : SdkErrors
four_errors = record {
  Failure = Failure;
  as_conditional_check_failed = is_check_failed;
  as_transaction_canceled = reasons_for;
  as_resource_not_found = is_table_missing;
  text = λ e. bytes "operation error";
  is = λ e s. false;
}

wrap_aws_error-IsClassified_example :
    IsClassified four_errors (wrap_aws_error four_errors canceled) true true false
unfolding is_check_failed reasons_for names_condition is_cancellation reasons_of pointed_text
    has_failed_condition ◌≟◌
wrap_aws_error-IsClassified_example = wrap_aws_error-IsClassified four_errors (λ e s. refl) canceled
