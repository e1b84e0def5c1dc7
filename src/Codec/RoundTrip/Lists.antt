-- ===== src/Codec/RoundTrip/Lists.antt =====
-- marshal.go, unmarshal.go: the loops over slices, maps and sets.
use dynago.Prelude.{
  ◌≡◌, ◌≢◌, refl, ap, ◌∙◌, Bool, true, false, List, [], ◌∷◌, ◌++◌, Bytes, Option, none, some, map,
  Result, ok, ◌>>=◌, >>=-eq-ok, ◌≟◌, ≟_iff, arith, Bool-cases, inl, inr,
}
use mathlib.Core.List.{append_assoc, append-nil}
use dynago.Attribute.{AttributeValue, Values, Item, no_values, value, no_attrs, attr}
use dynago.Attribute.Items.{get_attr, set_attr, get_attr-set_attr}
use dynago.Codec.Kept.{Each, EachPair, has_key}
use dynago.Codec.Marshal.{marshal_list, marshal_pairs, content}
use dynago.Codec.Unmarshal.{unmarshal_list, unmarshal_pairs, unmarshal_texts}

-- What `write` writes of the value, `read` reads.
abbrev pub IsBack :
    {A : Type 0} → (A → Result AttributeValue) → (AttributeValue → Result A) → A → Type 0
IsBack write read x = (av : AttributeValue) × (write x ≡ ok av) × (read av ≡ ok x)

-- A test that tells two names apart.
pub other_name : (p : Bytes → Bool) (k j : Bytes) → p k ≡ false → p j ≡ true → (k ≟ j) ≡ false
other_name p k j out inside = elim (Bool-cases (k ≟ j)) [
  | inl same ↦ let e = (≟_iff k j).0 same in cc (ap p e, out, inside)
  | inr differ ↦ differ
]

pub set_attr_there :
    (k : Bytes) (v : AttributeValue) (m : Item) → get_attr k (set_attr k v m) ≡ some v
set_attr_there k v m = rw (get_attr-set_attr k k v m, (≟_iff k k).1 refl) refl

pub get_attr-set_attr_other :
    (k j : Bytes) (v : AttributeValue) (m : Item)
    → (k ≟ j) ≡ false
    → get_attr j (set_attr k v m) ≡ get_attr j m
get_attr-set_attr_other k j v m h = rw (get_attr-set_attr k j v m, h) refl

module _ {A : Type 0} (P : A → Type 0) (write : A → Result AttributeValue)
    (read : AttributeValue → Result A) (back : (x : A) → P x → IsBack write read x) where
  pub list_back :
      (xs : List A)
      → Each P xs
      → (vs : Values) × (marshal_list write xs ≡ ok vs) × (unmarshal_list read vs ≡ ok xs)
  unfolding marshal_list unmarshal_list
  list_back [] kept = (no_values, refl, refl)
  list_back (x ∷ xs) (here, kept) =
      let (av, written, read_back) = back x here in
      let (vs, wrote, reads) = list_back xs kept in
      (value av vs, rw (written, wrote) refl, rw (read_back, reads) refl)

  -- A new key stands at the end of the item.
  added_pair :
      (k : Bytes) (x : A) (av : AttributeValue) (m : Item) (ys : List (Bytes × A))
      → read av ≡ ok x
      → get_attr k m ≡ none
      → unmarshal_pairs read m ≡ ok ys
      → unmarshal_pairs read (set_attr k av m) ≡ ok (ys ++ (k, x) ∷ [])
  unfolding unmarshal_pairs set_attr get_attr
  added_pair k x av no_attrs [] r h e = rw r refl
  added_pair k x av no_attrs (y ∷ ys) r h e = cc
  added_pair k x av (attr j w m) ys r h e =
      let other : (j ≟ k) ≡ false = ground (arith, h) in
      let later : get_attr k m ≡ none = ground (arith, h, other) in
      let (y, first, more) =
        >>=-eq-ok (read w) (λ z. unmarshal_pairs read m >>= λ zs. ok ((j, z) ∷ zs)) e in
      let (zs, rest, whole) = >>=-eq-ok (unmarshal_pairs read m) (λ zs. ok ((j, y) ∷ zs)) more in
      let same : (j, y) ∷ zs ≡ ys = cc whole in
      rw (other, ← same, first, added_pair k x av m zs r later rest) refl

  pairs_after :
      (xs : List (Bytes × A)) (m : Item) (ys : List (Bytes × A))
      → EachPair P xs
      → ((k : Bytes) → has_key k xs ≡ true → get_attr k m ≡ none)
      → unmarshal_pairs read m ≡ ok ys
      → (n : Item) × (marshal_pairs write xs m ≡ ok n) × (unmarshal_pairs read n ≡ ok (ys ++ xs))
  unfolding marshal_pairs has_key
  pairs_after [] m ys kept fresh e = (m, refl, rw (append-nil ys) e)
  pairs_after ((k, x) ∷ xs) m ys (new, here, kept) fresh e =
      let (av, written, read_back) = back x here in
      let absent : get_attr k m ≡ none = fresh k (ground (arith, ≟_iff k k)) in
      let added = added_pair k x av m ys read_back absent e in
      let still : (j : Bytes) → has_key j xs ≡ true → get_attr j (set_attr k av m) ≡ none = λ j h.
        get_attr-set_attr_other k j av m (other_name (λ i. has_key i xs) k j new h)
        ∙ fresh j (ground (arith, h)) in
      let (n, wrote, reads) =
        pairs_after xs (set_attr k av m) (ys ++ (k, x) ∷ []) kept still added in
      (n, rw (written) wrote, reads ∙ ap ok (append_assoc ys ((k, x) ∷ []) xs))

  pub pairs_back :
      (xs : List (Bytes × A))
      → EachPair P xs
      → (n : Item) × (marshal_pairs write xs no_attrs ≡ ok n) × (unmarshal_pairs read n ≡ ok xs)
  unfolding unmarshal_pairs get_attr
  pairs_back xs kept = pairs_after xs no_attrs [] kept (λ k h. refl) refl

-- The loops over sets.
pub texts_back :
    {A : Type 0} (P : A → Type 0) (write : A → Bytes) (read : Bytes → Result A)
    → ((x : A) → P x → read (write x) ≡ ok x)
    → (xs : List A) → Each P xs
    → unmarshal_texts read (map write xs) ≡ ok xs
unfolding unmarshal_texts
texts_back P write read back [] kept = refl
texts_back P write read back (x ∷ xs) (here, kept) =
    rw (back x here, texts_back P write read back xs kept) refl

pub contents_back :
    (bs : List (Option Bytes)) → Each (λ b. b ≢ none) bs → map some (map content bs) ≡ bs
unfolding content
contents_back [] kept = refl
contents_back (none ∷ bs) (here, kept) = absurd (here refl)
contents_back (some b ∷ bs) (here, kept) = ap (λ cs. some b ∷ cs) (contents_back bs kept)
