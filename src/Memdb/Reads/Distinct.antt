-- ===== src/Memdb/Reads/Distinct.antt =====
-- memdb/memdb.go: the sorted and directed range keys of a partition, and the keys behind one.
use dynago.Prelude.{
  ◌≡◌, refl, sym, ap, ◌∙◌, Bool, true, false, ◌||◌, List, [], ◌∷◌, ◌++◌, Bytes, Option, none, some,
  Assoc, lookup, keys, reverse, ◌≟◌, ≟_iff, if_yes, if_no, Bool-cases, inl, inr, arith,
}
use mathlib.Core.Path.{subst}
use mathlib.Core.List.{reverse-append}
use dynago.Attribute.{Item}
use dynago.Expr.Eval.{set_has}
use dynago.Memdb.Updates.StringSets.{IsDistinct, IsDistinct-append, set_has-append}
use dynago.Memdb.Reads.Sort.{insert_sorted, sort_strings, le_bytes}
use dynago.Memdb.Reads.Query.{behind, directed}

set_has-insert_sorted :
    (x z : Bytes) (ys : List Bytes) → set_has (insert_sorted x ys) z ≡ x ≟ z || set_has ys z
unfolding insert_sorted set_has
set_has-insert_sorted x z [] = refl
set_has-insert_sorted x z (y ∷ ys) = ground (arith, set_has-insert_sorted x z ys)

IsDistinct-insert_sorted :
    (x : Bytes) (ys : List Bytes)
    → set_has ys x ≡ false
    → IsDistinct ys
    → IsDistinct (insert_sorted x ys)
unfolding insert_sorted set_has
IsDistinct-insert_sorted x [] h d = (refl, tt)
IsDistinct-insert_sorted x (y ∷ ys) h d = elim (Bool-cases (le_bytes x y)) [
  | inl first ↦
      subst IsDistinct (sym (if_yes (le_bytes x y) (x ∷ y ∷ ys) (y ∷ insert_sorted x ys) first))
        (ground arith, d)
  | inr later ↦
      subst IsDistinct (sym (if_no (le_bytes x y) (x ∷ y ∷ ys) (y ∷ insert_sorted x ys) later)) (
        ground (arith, set_has-insert_sorted x y ys, ≟_iff x y, ≟_iff y x),
        IsDistinct-insert_sorted x ys (ground arith) d.1,
      )
]

-- Sorting keeps the elements, and keeps them distinct.
pub set_has-sort_strings :
    (xs : List Bytes) (z : Bytes) → set_has (sort_strings xs) z ≡ set_has xs z
unfolding sort_strings set_has
set_has-sort_strings [] z = refl
set_has-sort_strings (x ∷ xs) z =
    set_has-insert_sorted x z (sort_strings xs) ∙ ap (λ b. x ≟ z || b) (set_has-sort_strings xs z)

IsDistinct-sort_strings : (xs : List Bytes) → IsDistinct xs → IsDistinct (sort_strings xs)
unfolding sort_strings
IsDistinct-sort_strings [] d = tt
IsDistinct-sort_strings (x ∷ xs) d =
    IsDistinct-insert_sorted x (sort_strings xs) (set_has-sort_strings xs x ∙ d.0)
      (IsDistinct-sort_strings xs d.1)

set_has-reverse : (xs : List Bytes) (z : Bytes) → set_has (reverse xs) z ≡ set_has xs z
unfolding set_has
set_has-reverse [] z = refl
set_has-reverse (x ∷ xs) z =
    ap (λ l. set_has l z) (reverse-append (x ∷ []) xs)
    ∙ set_has-append (reverse xs) x z
    ∙ ground (arith, set_has-reverse xs z)

IsDistinct-reverse : (xs : List Bytes) → IsDistinct xs → IsDistinct (reverse xs)
IsDistinct-reverse [] d = tt
IsDistinct-reverse (x ∷ xs) d =
    subst IsDistinct (sym (reverse-append (x ∷ []) xs))
      (IsDistinct-append (reverse xs) x (IsDistinct-reverse xs d.1) (set_has-reverse xs x ∙ d.0))

pub set_has-directed :
    (forward : Option Bool) (xs : List Bytes) (z : Bytes)
    → set_has (directed forward xs) z ≡ set_has xs z
unfolding directed
set_has-directed none xs z = refl
set_has-directed (some true) xs z = refl
set_has-directed (some false) xs z = set_has-reverse xs z

pub IsDistinct-directed :
    (forward : Option Bool) (xs : List Bytes)
    → IsDistinct xs
    → IsDistinct (directed forward (sort_strings xs))
unfolding directed
IsDistinct-directed none xs d = IsDistinct-sort_strings xs d
IsDistinct-directed (some true) xs d = IsDistinct-sort_strings xs d
IsDistinct-directed (some false) xs d = IsDistinct-reverse _ (IsDistinct-sort_strings xs d)

absent_middle :
    (pre post : List Bytes) (rk x : Bytes) → set_has (pre ++ rk ∷ post) x ≡ false → (rk ≟ x) ≡ false
unfolding set_has
absent_middle [] post rk x h = ground arith
absent_middle (y ∷ pre) post rk x h = absent_middle pre post rk x (ground arith)

-- The keys behind one of distinct keys.
pub behind_split :
    (pre post : List Bytes) (rk : Bytes)
    → IsDistinct (pre ++ rk ∷ post)
    → behind rk (pre ++ rk ∷ post) ≡ some post
unfolding behind
behind_split [] post rk d = ground (arith, ≟_iff rk rk)
behind_split (x ∷ pre) post rk d =
    let other = absent_middle pre post rk x d.0 in
    ground (arith, behind_split pre post rk d.1, ≟_iff x rk, ≟_iff rk x)

-- A key of a map has a value.
pub lookup-set_has :
    (rk : Bytes) (rng : Assoc Item)
    → set_has (keys rng) rk ≡ true
    → (item : Item) × (lookup rk rng ≡ some item)
unfolding set_has lookup
lookup-set_has rk [] h = cc h
lookup-set_has rk ((k, v) ∷ rng) h = elim (Bool-cases (k ≟ rk)) [
  | inl here ↦ (v, if_yes (k ≟ rk) (some v) (lookup rk rng) here)
  | inr there ↦
      let (item, found) = lookup-set_has rk rng (ground arith) in
      (item, if_no (k ≟ rk) (some v) (lookup rk rng) there ∙ found)
]
