-- ===== src/Prelude/Text.antt =====
-- Go strings as lists of bytes, with the functions of package strings that the program calls.
-- Case mapping is that of ASCII.
use Prim.Native.Nat.{ℕ, zero, suc, ◌+◌, ◌-◌, compare, Ordering}
use Prim.Native.Char.{code}
use Prim.Native.String.{String}
use mathlib.Core.Path.{◌≡◌, refl}
use mathlib.Core.Logic.{◌↔◌}
use mathlib.Core.Bool.{Bool, true, false, ◌&&◌}
use mathlib.Core.Option.{Option, none, some}
use mathlib.Core.List.{List, [], ◌∷◌, map}
use native.Mathlib.Omega.{arith}
use dynago.Prelude.Tests.{leb, ◌==◌, if◌then◌else◌}

abbrev pub Bytes : Type 0
Bytes = List ℕ

-- The bytes of a literal.
abbrev pub bytes : String → Bytes
bytes String.[] = []
bytes (String.◌∷◌ c s) = code c ∷ bytes s

infix 50 ◌≟◌
unfoldable pub ◌≟◌ : Bytes → Bytes → Bool
[] ≟ [] = true
[] ≟ (b ∷ bs) = false
(a ∷ as') ≟ [] = false
(a ∷ as') ≟ (b ∷ bs) = let rest = as' ≟ bs in if a == b then rest else false

≟-refl : (a : Bytes) → (a ≟ a) ≡ true
unfolding ◌≟◌
≟-refl [] = refl
≟-refl (a ∷ as') = ground (arith, ≟-refl as')

≟-eq : (a b : Bytes) → (a ≟ b) ≡ true → a ≡ b
unfolding ◌≟◌
≟-eq [] [] h = refl
≟-eq [] (b ∷ bs) h = cc
≟-eq (a ∷ as') [] h = cc
≟-eq (a ∷ as') (b ∷ bs) h = ground (arith, ≟-eq as' bs)

pub ≟_iff : (a b : Bytes) → ((a ≟ b) ≡ true) ↔ (a ≡ b)
≟_iff a b = (≟-eq a b, λ e. cc (e, ≟-refl a))

-- strings.Compare
unfoldable pub compare_bytes : Bytes → Bytes → Ordering
compare_bytes [] [] = Ordering.eq
compare_bytes [] (b ∷ bs) = Ordering.lt
compare_bytes (a ∷ as') [] = Ordering.gt
compare_bytes (a ∷ as') (b ∷ bs) =
    let rest = compare_bytes as' bs in
    elim (compare a b) [
      | Ordering.lt ↦ Ordering.lt
      | Ordering.gt ↦ Ordering.gt
      | Ordering.eq ↦ rest
    ]

-- strings.HasPrefix
unfoldable pub has_prefix : Bytes → Bytes → Bool
has_prefix s [] = true
has_prefix [] (p ∷ ps) = false
has_prefix (c ∷ s) (p ∷ ps) = let rest = has_prefix s ps in if c == p then rest else false

-- The part of a text after its first `n` bytes.
abbrev pub skip : ℕ → Bytes → Bytes
skip zero s = s
skip (suc n) [] = []
skip (suc n) (c ∷ s) = skip n s

abbrev pub size : Bytes → ℕ
size [] = 0
size (c ∷ s) = suc (size s)

-- strings.Cut: the parts before and after the first occurrence of `sep`. strings.Index, of which
-- the program uses only the two parts that the index divides, is read from it.
unfoldable pub cut : Bytes → Bytes → Option (Bytes × Bytes)
unfolding has_prefix
cut sep [] = if has_prefix [] sep then some ([], []) else none
cut sep (c ∷ s) =
    let rest : Option (Bytes × Bytes) = elim (cut sep s) [
      | none ↦ none
      | some (a, b) ↦ some (c ∷ a, b)
    ] in
    if has_prefix (c ∷ s) sep then some ([], skip (size sep) (c ∷ s)) else rest

-- strings.Contains
unfoldable pub contains : Bytes → Bytes → Bool
unfolding cut
contains s sub = elim (cut sub s) [ none ↦ false | some r ↦ true ]

-- strings.Split by a separator of one byte; never empty.
unfoldable pub split_on : ℕ → Bytes → List Bytes
split_on sep [] = [] ∷ []
split_on sep (c ∷ s) =
    let rest = split_on sep s in
    if c == sep then [] ∷ rest else elim rest [ [] ↦ (c ∷ []) ∷ [] | w ∷ ws ↦ (c ∷ w) ∷ ws ]

upper_byte : ℕ → ℕ
upper_byte c = if leb b'a' c && leb c b'z' then c - 32 else c

lower_byte : ℕ → ℕ
lower_byte c = if leb b'A' c && leb c b'Z' then c + 32 else c

-- strings.ToUpper, strings.ToLower
unfoldable pub to_upper : Bytes → Bytes
unfolding upper_byte
to_upper s = map upper_byte s

unfoldable pub to_lower : Bytes → Bytes
unfolding lower_byte
to_lower s = map lower_byte s

-- strings.EqualFold
unfoldable pub equal_fold : Bytes → Bytes → Bool
unfolding to_lower ◌≟◌
equal_fold s t = to_lower s ≟ to_lower t
