-- ===== src/Memdb/KeyCondition/Pieces.antt =====
-- memdb/memdb.go: trimSpace, splitOnAND and the cuts of the expression's text.
use dynago.Prelude.{
  ℕ, suc, Bool, true, false, not, ◌&&◌, ◌||◌, List, [], ◌∷◌, ◌++◌, Bytes, bytes, Option, none, some,
  ◌==◌, has_prefix, contains, skip, size, to_upper, if◌then◌else◌,
}

unfoldable pub is_blank : ℕ → Bool
is_blank c = c == b' ' || c == 9

unfoldable pub trim_left : Bytes → Bytes
trim_left [] = []
trim_left (c ∷ s) = let rest = trim_left s in if is_blank c then rest else c ∷ s

unfoldable pub trim_right : Bytes → Bytes
trim_right [] = []
trim_right (c ∷ s) = elim (trim_right s) [
  | [] ↦ if is_blank c then [] else c ∷ []
  | d ∷ rest ↦ c ∷ d ∷ rest
]

-- trimSpace
unfoldable pub trim_space : Bytes → Bytes
unfolding is_blank trim_left trim_right
trim_space s = trim_right (trim_left s)

-- The parts of a text around the first place where it reads `sep`, in any case.
unfoldable pub cut_upper : Bytes → Bytes → Option (Bytes × Bytes)
cut_upper sep [] = none
cut_upper sep (c ∷ s) =
    let later : Option (Bytes × Bytes) = elim (cut_upper sep s) [
      | none ↦ none
      | some (a, b) ↦ some (c ∷ a, b)
    ] in
    if has_prefix (to_upper (c ∷ s)) sep then some ([], skip (size sep) (c ∷ s)) else later

-- The part of a text before the last `mark`.
unfoldable pub before_last : ℕ → Bytes → Option Bytes
before_last mark [] = none
before_last mark (c ∷ s) = elim (before_last mark s) [
  | some a ↦ some (c ∷ a)
  | none ↦ if c == mark then some [] else none
]

-- containsBETWEEN
unfoldable pub contains_between : Bytes → Bool
contains_between s = contains (to_upper s) (bytes " BETWEEN ")

-- Whether the loop of splitOnAND stops here: `depth` is `opened` less `closed`.
stops : Bytes → ℕ → ℕ → ℕ → Bytes → Bool
unfolding contains_between trim_space
stops before opened closed ch s =
    not (ch == b'(')
    && not (ch == b')')
    && opened == closed
    && has_prefix (to_upper (ch ∷ s)) (bytes " AND ")
    && not (contains_between (trim_space before))

split_from : Bytes → ℕ → ℕ → Bytes → List Bytes
unfolding stops
split_from before opened closed [] = before ∷ []
split_from before opened closed (ch ∷ s) = elim (stops before opened closed ch s) [
  | true ↦ trim_space before ∷ trim_space (skip 5 (ch ∷ s)) ∷ []
  | false ↦
      split_from (before ++ ch ∷ []) (if ch == b'(' then suc opened else opened)
        (if ch == b')' then suc closed else closed) s
]

-- splitOnAND
unfoldable pub split_on_and : Bytes → List Bytes
unfolding split_from
split_on_and s = split_from [] 0 0 s
