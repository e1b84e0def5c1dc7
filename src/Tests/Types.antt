-- ===== src/Tests/Types.antt =====
-- The registry with two types of items.
use dynago.Prelude.{◌≡◌, refl, [], ◌∷◌, Bytes, bytes, some, lookup, insert, ◌≟◌, Result, ok}
use dynago.Attribute.{Item, attr, no_attrs, type_s}
use dynago.Attribute.Items.{get_attr}
use dynago.Client.Registry.{TypeRegistry, register_type, unmarshal_polymorphic}

abbrev with_users : TypeRegistry Bytes
with_users = record { discriminator_attr = bytes "type"; types = (bytes "U", bytes "user") ∷ [] }

abbrev with_both : TypeRegistry Bytes
with_both = record {
  discriminator_attr = bytes "type";
  types = (bytes "U", bytes "user") ∷ (bytes "O", bytes "order") ∷ [];
}

abbrev an_order : Item
an_order = attr (bytes "type") (type_s (bytes "O")) no_attrs

-- The value of an item is the name of its type.
abbrev as_type : Bytes → Item → Result Bytes
as_type typ item = ok typ

both_registered : register_type (bytes "O") (bytes "order") with_users ≡ ok with_both
unfolding register_type lookup insert ◌≟◌
both_registered = refl

order_tagged : get_attr (bytes "type") an_order ≡ some (type_s (bytes "O"))
unfolding get_attr ◌≟◌
order_tagged = refl

read_as_order : unmarshal_polymorphic as_type with_both an_order ≡ ok (bytes "order")
unfolding unmarshal_polymorphic get_attr lookup ◌≟◌
read_as_order = refl
