-- ===== src/Aws/RoundTrip.antt =====
-- awsbackend/translate.go: values of the library through the SDK and back.
use dynago.Prelude.{ℕ, zero, suc, ◌+◌, ◌<◌, ◌≡◌, refl, some, arith}
use dynago.Attribute.{
  AttributeValue, Values, Item, type_none, type_s, type_n, type_b, type_bool, type_null, type_l,
  type_m, type_ss, type_ns, type_bs, no_values, value, no_attrs, attr,
}
use dynago.Aws.Translate.{
  Member, Sdk, to_aws_attribute_value, to_aws_list, to_aws_item, from_aws_list, from_aws_pairs,
  from_aws_attribute_value, from_aws_item,
}

-- A bound on how deep a value is nested.
unfoldable mutual
  pub depth_of : AttributeValue → ℕ
  depth_of (type_l vs) = suc (depth_of_list vs)
  depth_of (type_m m) = suc (depth_of_item m)
  depth_of av = 0

  pub depth_of_list : Values → ℕ
  depth_of_list no_values = 0
  depth_of_list (value v vs) = depth_of v + depth_of_list vs

  pub depth_of_item : Item → ℕ
  depth_of_item no_attrs = 0
  depth_of_item (attr k v m) = depth_of v + depth_of_item m

-- No zero value of AttributeValue stands in it.
abbrev mutual
  pub IsDefined : AttributeValue → Type 0
  IsDefined type_none = ⊥
  IsDefined (type_l vs) = AreDefined vs
  IsDefined (type_m m) = IsDefinedItem m
  IsDefined (type_s s) = Unit
  IsDefined (type_n s) = Unit
  IsDefined (type_b s) = Unit
  IsDefined (type_bool b) = Unit
  IsDefined (type_null b) = Unit
  IsDefined (type_ss s) = Unit
  IsDefined (type_ns s) = Unit
  IsDefined (type_bs s) = Unit

  pub AreDefined : Values → Type 0
  AreDefined no_values = Unit
  AreDefined (value v vs) = IsDefined v × AreDefined vs

  pub IsDefinedItem : Item → Type 0
  IsDefinedItem no_attrs = Unit
  IsDefinedItem (attr k v m) = IsDefined v × IsDefinedItem m

module _ (S : Sdk) (switched : (m : Member S.Value) → S.switch (S.make m) ≡ m) where
  mutual
    unfolding to_aws_attribute_value from_aws_attribute_value depth_of from_aws_list from_aws_pairs

    value_back :
        (av : AttributeValue) (depth : ℕ)
        → depth_of av < depth
        → IsDefined av
        → from_aws_attribute_value S depth (to_aws_attribute_value S av) ≡ some av
    value_back av zero deep h = absurd (omega (arith, deep))
    value_back type_none (suc depth) deep h = absurd h
    value_back (type_s s) (suc depth) deep h = rw (from_aws_attribute_value, switched) refl
    value_back (type_n s) (suc depth) deep h = rw (from_aws_attribute_value, switched) refl
    value_back (type_b s) (suc depth) deep h = rw (from_aws_attribute_value, switched) refl
    value_back (type_bool b) (suc depth) deep h = rw (from_aws_attribute_value, switched) refl
    value_back (type_null b) (suc depth) deep h = rw (from_aws_attribute_value, switched) refl
    value_back (type_ss s) (suc depth) deep h = rw (from_aws_attribute_value, switched) refl
    value_back (type_ns s) (suc depth) deep h = rw (from_aws_attribute_value, switched) refl
    value_back (type_bs s) (suc depth) deep h = rw (from_aws_attribute_value, switched) refl
    value_back (type_l vs) (suc depth) deep h =
        rw (from_aws_attribute_value, switched, list_back vs depth (omega (arith, deep)) h) refl
    value_back (type_m m) (suc depth) deep h =
        rw (from_aws_attribute_value, switched, pairs_back m depth (omega (arith, deep)) h) refl

    list_back :
        (vs : Values) (depth : ℕ)
        → depth_of_list vs < depth
        → AreDefined vs
        → from_aws_list S (from_aws_attribute_value S depth) (to_aws_list S vs) ≡ some vs
    list_back no_values depth deep h = refl
    list_back (value v vs) depth deep (here, h) =
        rw
          (
            value_back v depth (omega (arith, deep)) here,
            list_back vs depth (omega (arith, deep)) h,
          )
          refl

    pairs_back :
        (m : Item) (depth : ℕ)
        → depth_of_item m < depth
        → IsDefinedItem m
        → from_aws_pairs S (from_aws_attribute_value S depth) (to_aws_item S m) ≡ some m
    pairs_back no_attrs depth deep h = refl
    pairs_back (attr k v m) depth deep (here, h) =
        rw
          (
            value_back v depth (omega (arith, deep)) here,
            pairs_back m depth (omega (arith, deep)) h,
          )
          refl

  -- An item without the zero value of AttributeValue is the same after it is converted to the SDK and
  -- back, with any bound above depth_of the item, if a type switch gives back the member a value was made of.
  pub from_aws_item-to_aws_item :
      (m : Item) (depth : ℕ)
      → depth_of_item m < depth
      → IsDefinedItem m
      → from_aws_item S depth (to_aws_item S m) ≡ some m
  unfolding from_aws_item
  from_aws_item-to_aws_item m depth deep h = pairs_back m depth deep h
