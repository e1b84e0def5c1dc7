-- ===== src/Memdb/Updates/StringSets.antt =====
-- memdb/expression.go: the sets that ADD and DELETE make.
use dynago.Prelude.{
  ◌≡◌, refl, sym, ap, ◌∙◌, true, false, not, ◌&&◌, ◌||◌, List, [], ◌∷◌, ◌++◌, Bytes, ◌≟◌, ≟_iff,
  Bool-cases, inl, inr, arith,
}
use mathlib.Core.List.{append_assoc, append-nil}
use dynago.Expr.Eval.{set_has}
use dynago.Memdb.Updates.Changes.{add_from, add_to_string_set, remove_from_string_set}

pub set_has-append :
    (xs : List Bytes) (s x : Bytes) → set_has (xs ++ s ∷ []) x ≡ set_has xs x || s ≟ x
unfolding set_has
set_has-append [] s x = ground arith
set_has-append (y ∷ xs) s x = ground (arith, set_has-append xs s x)

-- DELETE makes the difference: an element stays exactly if it is not among the removed.
set_has-remove_from_string_set :
    (existing remove : List Bytes) (x : Bytes)
    → set_has (remove_from_string_set existing remove) x
      ≡ set_has existing x && not (set_has remove x)
unfolding set_has remove_from_string_set
set_has-remove_from_string_set [] remove x = refl
set_has-remove_from_string_set (y ∷ existing) remove x =
    ground (arith, set_has-remove_from_string_set existing remove x, ≟_iff y x)

-- No element stands twice.
abbrev pub IsDistinct : List Bytes → Type 0
IsDistinct [] = Unit
IsDistinct (x ∷ xs) = (set_has xs x ≡ false) × IsDistinct xs

pub IsDistinct-append :
    (xs : List Bytes) (s : Bytes) → IsDistinct xs → set_has xs s ≡ false → IsDistinct (xs ++ s ∷ [])
unfolding set_has
IsDistinct-append [] s d h = (refl, tt)
IsDistinct-append (x ∷ xs) s d h = (
  ground (arith, set_has-append xs s x, ≟_iff s x, ≟_iff x s),
  IsDistinct-append xs s d.1 (ground arith),
)

add_member :
    (set result : List Bytes) (s : Bytes)
    → ((t : Bytes) → set_has set t ≡ set_has result t)
    → (t : Bytes) → set_has (s ∷ set) t ≡ set_has (result ++ s ∷ []) t
unfolding set_has
add_member set result s same t = ground (arith, set_has-append result s t, same t)

-- What the loop makes of a result that has the elements of the map.
abbrev pub IsUnion : List Bytes → List Bytes → Bytes → List Bytes → Type 0
IsUnion result add x out =
    (set_has out x ≡ set_has result x || set_has add x)
    × IsDistinct out
    × ((fresh : List Bytes) × (out ≡ result ++ fresh))

add_from-IsUnion :
    (set result add : List Bytes) (x : Bytes)
    → ((t : Bytes) → set_has set t ≡ set_has result t)
    → IsDistinct result
    → IsUnion result add x (add_from set result add)
unfolding add_from set_has
add_from-IsUnion set result [] x same d = (ground arith, d, ([], sym (append-nil result)))
add_from-IsUnion set result (s ∷ add) x same d = elim (Bool-cases (set_has set s)) [
  | inl there ↦
      let (members, distinct, (fresh, grown)) = add_from-IsUnion set result add x same d in
      let known : set_has result s ≡ true = sym (same s) ∙ there in
      rw (there, add_from)
        (
          ground (arith, members, known, ≟_iff s x, ap (set_has result) {x = s} {y = x}),
          distinct,
          (fresh, grown),
        )
  | inr new ↦
      let unknown = sym (same s) ∙ new in
      let (members, distinct, (fresh, grown)) =
        add_from-IsUnion (s ∷ set) (result ++ s ∷ []) add x (add_member set result s same)
          (IsDistinct-append result s d unknown) in
      rw (new, add_from)
        (
          ground (arith, members, set_has-append result s x),
          distinct,
          (s ∷ fresh, grown ∙ append_assoc result (s ∷ []) fresh),
        )
]

-- ADD makes the union of two sets: if no element of the existing one stands twice, the result is the
-- existing one, in its order, with others behind; an element is in it exactly if it was there or is
-- among the added; and no element stands twice.
pub add_to_string_set-IsUnion :
    (existing add : List Bytes) (x : Bytes)
    → IsDistinct existing
    → IsUnion existing add x (add_to_string_set existing add)
unfolding add_to_string_set
add_to_string_set-IsUnion existing add x d = add_from-IsUnion existing existing add x (λ t. refl) d
