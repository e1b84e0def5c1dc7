-- ===== src/Client/Registry.antt =====
-- registry.go and polymorphic.go. A Go type is what Unmarshal makes of an item at it: T names the
-- types, A holds their values.
use dynago.Prelude.{
  ◌≡◌, refl, sym, ap, ◌∙◌, [], Bytes, Option, none, some, Assoc, lookup, insert, lookup-insert, ◌≟◌,
  Bool-cases, Option-cases, inl, inr, Error, Result, ok, err, panic, if◌then◌else◌, arith,
}
use mathlib.Core.Path.{subst}
use dynago.Attribute.{AttributeValue, Item, type_s}
use dynago.Attribute.Items.{get_attr}

-- Registry
pub record TypeRegistry (T : Type 0) : Type 0 where
  pub discriminator_attr : Bytes
  pub types : Assoc T

-- NewRegistry
unfoldable pub new_registry : {T : Type 0} → Bytes → TypeRegistry T
new_registry name = record { discriminator_attr = name; types = [] }

-- Register, of an entity with a discriminator and a type
unfoldable pub register_type : {T : Type 0} → Bytes → T → TypeRegistry T → Result (TypeRegistry T)
register_type discriminator typ r = elim (lookup discriminator r.types) [
  | some taken ↦ err panic
  | none ↦ ok (record r { types = insert discriminator typ r.types })
]

module _ {T A : Type 0} (unmarshal_as : T → Item → Result A) where
  as_registered : Option T → Item → Result A
  as_registered none item = err Error.expression
  as_registered (some typ) item = unmarshal_as typ item

  by_discriminator : Option AttributeValue → TypeRegistry T → Item → Result A
  unfolding as_registered
  by_discriminator (some (type_s s)) r item = as_registered (lookup s r.types) item
  by_discriminator _ r item = err Error.expression

  -- unmarshalPolymorphic
  unfoldable pub unmarshal_polymorphic : TypeRegistry T → Item → Result A
  unfolding by_discriminator
  unmarshal_polymorphic r item = by_discriminator (get_attr r.discriminator_attr item) r item

  by_attribute :
      (s : Bytes) (r : TypeRegistry T) (item : Item)
      → get_attr r.discriminator_attr item ≡ some (type_s s)
      → unmarshal_polymorphic r item ≡ as_registered (lookup s r.types) item
  unfolding unmarshal_polymorphic
  by_attribute s r item tagged = ap (λ v. by_discriminator v r item) tagged

  looked_up :
      (discriminator s : Bytes) (typ : T) (types : Assoc T) (item : Item)
      → as_registered (lookup s (insert discriminator typ types)) item
        ≡ (if discriminator ≟ s then unmarshal_as typ item else as_registered (lookup s types) item)
  unfolding as_registered
  looked_up discriminator s typ types item = elim (Bool-cases (discriminator ≟ s)) [
    | inl same ↦ rw (lookup-insert, same) refl
    | inr other ↦ rw (lookup-insert, other) refl
  ]

  -- After a type has been registered, an item with its discriminator unmarshals at that type, and an
  -- item with another discriminator as before.
  unmarshal_polymorphic-register_type :
      (discriminator s : Bytes) (typ : T) (r next : TypeRegistry T) (item : Item)
      → register_type discriminator typ r ≡ ok next
      → get_attr r.discriminator_attr item ≡ some (type_s s)
      → unmarshal_polymorphic next item
        ≡ (if discriminator ≟ s then unmarshal_as typ item else unmarshal_polymorphic r item)
  unfolding unmarshal_polymorphic register_type
  unmarshal_polymorphic-register_type discriminator s typ r next item registered tagged =
      elim (Option-cases (lookup discriminator r.types)) [
        | inr (taken, there) ↦ absurd (ground (arith, registered, there))
        | inl fresh ↦
            let added : TypeRegistry T = record r { types = insert discriminator typ r.types } in
            let same : added ≡ next = ground (arith, registered, fresh) in
            subst
              (λ (n : TypeRegistry T). unmarshal_polymorphic n item ≡ (
                if discriminator ≟ s then unmarshal_as typ item else unmarshal_polymorphic r item))
              same
              (by_attribute s added item tagged
                ∙ looked_up discriminator s typ r.types item
                ∙ ap (λ x. if discriminator ≟ s then unmarshal_as typ item else x)
                    (sym (by_attribute s r item tagged)))
      ]
