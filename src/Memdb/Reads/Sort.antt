-- ===== src/Memdb/Reads/Sort.antt =====
-- sort.Strings, as an insertion sort; a result that is sorted and a permutation is unique.
use dynago.Prelude.{Bool, true, false, List, [], ◌∷◌, Bytes, Ordering, compare_bytes, if◌then◌else◌}

-- a ≤ b in the order of bytes
unfoldable pub le_bytes : Bytes → Bytes → Bool
le_bytes a b = elim (compare_bytes a b) [ Ordering.gt ↦ false | _ ↦ true ]

unfoldable pub insert_sorted : Bytes → List Bytes → List Bytes
insert_sorted x [] = x ∷ []
insert_sorted x (y ∷ ys) = if le_bytes x y then x ∷ y ∷ ys else y ∷ insert_sorted x ys

unfoldable pub sort_strings : List Bytes → List Bytes
unfolding insert_sorted le_bytes
sort_strings [] = []
sort_strings (x ∷ xs) = insert_sorted x (sort_strings xs)
