-- ===== src/Aws/Translate.antt =====
-- awsbackend/translate.go: attribute values of the library and of the AWS SDK. A value of the SDK is
-- of a type that is not defined here, so that the way back takes a bound on how deep it is nested.
use dynago.Prelude.{ℕ, zero, suc, Bool, true, List, [], ◌∷◌, Bytes, Option, none, some}
use dynago.Attribute.{
  AttributeValue, Values, Item, type_none, type_s, type_n, type_b, type_bool, type_null, type_l,
  type_m, type_ss, type_ns, type_bs, no_values, value, no_attrs, attr,
}

-- The members of the SDK's interface types.AttributeValue that a type switch tells apart.
pub data Member (Value : Type 0) : Type 0 where
  member_s member_n member_b : Bytes → Member Value
  member_bool member_null : Bool → Member Value
  member_l : List Value → Member Value
  member_m : List (Bytes × Value) → Member Value
  member_ss member_ns member_bs : List Bytes → Member Value
  unknown_member : Member Value

-- types.AttributeValue: making a value from a member, and the type switch.
pub record Sdk : Type 1 where
  pub Value : Type 0
  pub make : Member Value → Value
  pub switch : Value → Member Value

infixl 5 ◌>>=◌
-- Going on with a result that is there.
abbrev pub ◌>>=◌ : {A B : Type 0} → Option A → (A → Option B) → Option B
◌>>=◌ none next = none
◌>>=◌ (some x) next = next x

module _ (S : Sdk) where
  unfoldable mutual
    -- toAWSAttributeValue
    pub to_aws_attribute_value : AttributeValue → S.Value
    to_aws_attribute_value (type_s s) = S.make (member_s s)
    to_aws_attribute_value (type_n s) = S.make (member_n s)
    to_aws_attribute_value (type_b s) = S.make (member_b s)
    to_aws_attribute_value (type_bool b) = S.make (member_bool b)
    to_aws_attribute_value (type_null b) = S.make (member_null b)
    to_aws_attribute_value (type_l vs) = S.make (member_l (to_aws_list vs))
    to_aws_attribute_value (type_m m) = S.make (member_m (to_aws_item m))
    to_aws_attribute_value (type_ss ss) = S.make (member_ss ss)
    to_aws_attribute_value (type_ns ss) = S.make (member_ns ss)
    to_aws_attribute_value (type_bs ss) = S.make (member_bs ss)
    to_aws_attribute_value type_none = S.make (member_null true)

    pub to_aws_list : Values → List S.Value
    to_aws_list no_values = []
    to_aws_list (value v vs) = to_aws_attribute_value v ∷ to_aws_list vs

    -- toAWSItem
    pub to_aws_item : Item → List (Bytes × S.Value)
    to_aws_item no_attrs = []
    to_aws_item (attr k v m) = (k, to_aws_attribute_value v) ∷ to_aws_item m

  unfoldable pub from_aws_list : (S.Value → Option AttributeValue) → List S.Value → Option Values
  from_aws_list f [] = some no_values
  from_aws_list f (v ∷ vs) = do x ← f v; xs ← from_aws_list f vs; some (value x xs)

  unfoldable pub from_aws_pairs :
      (S.Value → Option AttributeValue) → List (Bytes × S.Value) → Option Item
  from_aws_pairs f [] = some no_attrs
  from_aws_pairs f ((k, v) ∷ m) = do x ← f v; xs ← from_aws_pairs f m; some (attr k x xs)

  -- fromAWSAttributeValue; none if the value is nested deeper than the bound
  unfoldable pub from_aws_attribute_value : ℕ → S.Value → Option AttributeValue
  unfolding from_aws_list from_aws_pairs
  from_aws_attribute_value zero v = none
  from_aws_attribute_value (suc depth) v = elim (S.switch v) [
    | member_s s ↦ some (type_s s)
    | member_n s ↦ some (type_n s)
    | member_b s ↦ some (type_b s)
    | member_bool b ↦ some (type_bool b)
    | member_null b ↦ some (type_null b)
    | member_l vs ↦ do list ← from_aws_list (from_aws_attribute_value depth) vs; some (type_l list)
    | member_m m ↦ do item ← from_aws_pairs (from_aws_attribute_value depth) m; some (type_m item)
    | member_ss ss ↦ some (type_ss ss)
    | member_ns ss ↦ some (type_ns ss)
    | member_bs ss ↦ some (type_bs ss)
    | unknown_member ↦ some (type_null true)
  ]

  -- fromAWSItem
  unfoldable pub from_aws_item : ℕ → List (Bytes × S.Value) → Option Item
  unfolding from_aws_attribute_value
  from_aws_item depth m = from_aws_pairs (from_aws_attribute_value depth) m
