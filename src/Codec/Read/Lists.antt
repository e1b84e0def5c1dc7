-- ===== src/Codec/Read/Lists.antt =====
-- unmarshal.go: the loops over lists and maps.
use dynago.Prelude.{
  ◌≡◌, refl, List, [], ◌∷◌, Bytes, Option, some, Result, ok, err, >>=-eq-ok, ◌>>=◌, panic,
}
use mathlib.Core.Path.{subst}
use dynago.Attribute.{AttributeValue, Values, Item, type_m, no_values, value, no_attrs, attr}
use dynago.Codec.Read.{Listed, Keyed, Mapped}
use dynago.Codec.Types.{KeyType, string_key, defined_string_key, other_key}
use dynago.Codec.Unmarshal.{unmarshal_list, unmarshal_pairs, unmarshal_map}

module _ {A : Type 0} (R : AttributeValue → A → Type 0) (f : AttributeValue → Result A)
    (read : (av : AttributeValue) (x : A) → f av ≡ ok x → R av x) where
  pub unmarshal_list-Listed :
      (vs : Values) (xs : List A) → unmarshal_list f vs ≡ ok xs → Listed R vs xs
  unfolding unmarshal_list
  unmarshal_list-Listed no_values [] e = tt
  unmarshal_list-Listed no_values (x ∷ xs) e = cc
  unmarshal_list-Listed (value av vs) xs e =
      let (y, first, more) = >>=-eq-ok (f av) (λ y. unmarshal_list f vs >>= λ ys. ok (y ∷ ys)) e in
      let (ys, rest, whole) = >>=-eq-ok (unmarshal_list f vs) (λ ys. ok (y ∷ ys)) more in
      let same : y ∷ ys ≡ xs = cc whole in
      subst (Listed R (value av vs)) same (read av y first, unmarshal_list-Listed vs ys rest)

  unmarshal_pairs-Keyed :
      (m : Item) (xs : List (Bytes × A)) → unmarshal_pairs f m ≡ ok xs → Keyed R m xs
  unfolding unmarshal_pairs
  unmarshal_pairs-Keyed no_attrs [] e = tt
  unmarshal_pairs-Keyed no_attrs (x ∷ xs) e = cc
  unmarshal_pairs-Keyed (attr k av m) xs e =
      let (y, first, more) =
        >>=-eq-ok (f av) (λ y. unmarshal_pairs f m >>= λ ys. ok ((k, y) ∷ ys)) e in
      let (ys, rest, whole) = >>=-eq-ok (unmarshal_pairs f m) (λ ys. ok ((k, y) ∷ ys)) more in
      let same : (k, y) ∷ ys ≡ xs = cc whole in
      subst (Keyed R (attr k av m)) same (refl, (read av y first, unmarshal_pairs-Keyed m ys rest))

  pub unmarshal_map-Mapped :
      (k : KeyType) (m : Item) (x : Option (List (Bytes × A)))
      → unmarshal_map k f m ≡ ok x
      → Mapped R (type_m m) x
  unfolding unmarshal_map
  unmarshal_map-Mapped string_key m x e =
      let (xs, read_all, whole) = >>=-eq-ok (unmarshal_pairs f m) (λ xs. ok (some xs)) e in
      let same : some xs ≡ x = cc whole in
      subst (Mapped R (type_m m)) same (m, (refl, unmarshal_pairs-Keyed m xs read_all))
  unmarshal_map-Mapped defined_string_key no_attrs x e =
      let same : some [] ≡ x = cc e in
      subst (Mapped R (type_m no_attrs)) same (no_attrs, (refl, tt))
  unmarshal_map-Mapped defined_string_key (attr k av m) x e =
      let (y, first, more) = >>=-eq-ok (f av) (λ y. err panic) e in cc more
  unmarshal_map-Mapped other_key m x e = cc e
