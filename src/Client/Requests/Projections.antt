-- ===== src/Client/Requests/Projections.antt =====
-- get.go: the projection that the client builds, as the in-memory backend reads it.
use dynago.Prelude.{
  ℕ, ◌≡◌, refl, ap, ◌∙◌, false, List, [], ◌∷◌, ◌++◌, Bytes, bytes, Assoc, lookup, insert,
  lookup-insert, map, split_on, ◌≟◌, ≟_iff, ◌==◌, some, Bool-cases, inl, inr, arith,
}
use mathlib.Core.List.{append_assoc}
use dynago.Memdb.KeyCondition.Pieces.{is_blank, trim_left, trim_right, trim_space}
use dynago.Memdb.KeyCondition.Parse.{resolve_name_placeholder, starts_with, or_token}
use dynago.Memdb.Reads.Project.{parse_projection_attrs, projection_names}
use dynago.Client.Conditions.Build.{alias_of, join}
use dynago.Client.Requests.Items.{build_projection, projection_names_of}

-- Text without a blank or a comma.
abbrev pub IsPlain : Bytes → Type 0
IsPlain [] = Unit
IsPlain (c ∷ s) = (is_blank c ≡ false) × (((c == b',') ≡ false) × IsPlain s)

abbrev pub AllPlain : List Bytes → Type 0
AllPlain [] = Unit
AllPlain (s ∷ l) = IsPlain s × AllPlain l

split_plain :
    (s rest : Bytes) → IsPlain s → split_on b',' (s ++ b',' ∷ rest) ≡ s ∷ split_on b',' rest
unfolding split_on
split_plain [] rest h = refl
split_plain (c ∷ s) rest h = ground (arith, split_plain s rest h.1.1)

split_last : (s : Bytes) → IsPlain s → split_on b',' s ≡ s ∷ []
unfolding split_on
split_last [] h = refl
split_last (c ∷ s) h = ground (arith, split_last s h.1.1)

trim_right_plain : (s : Bytes) → IsPlain s → trim_right s ≡ s
unfolding trim_right
trim_right_plain [] h = refl
trim_right_plain (c ∷ []) h = ground arith
trim_right_plain (c ∷ d ∷ s) h = ground (arith, trim_right_plain (d ∷ s) h.1.1)

trim_plain : (c : ℕ) (s : Bytes) → IsPlain (c ∷ s) → trim_space (c ∷ s) ≡ c ∷ s
unfolding trim_space trim_left
trim_plain c s h = ground (arith, trim_right_plain (c ∷ s) h)

-- A blank before the first part changes nothing.
blank_first :
    (t : Bytes) (names : Assoc Bytes)
    → projection_names (split_on b',' (b' ' ∷ t)) names ≡ projection_names (split_on b',' t) names
unfolding split_on projection_names trim_space trim_left
blank_first t names = parts_of (split_on b',' t)
  where
    parts_of :
        (parts : List Bytes)
        → projection_names (elim parts [ [] ↦ (b' ' ∷ []) ∷ [] | w ∷ ws ↦ (b' ' ∷ w) ∷ ws ]) names
          ≡ projection_names parts names
    parts_of [] = refl
    parts_of (w ∷ ws) = refl

-- Every name of a list is what its alias stands for.
abbrev pub AllNamed : List Bytes → Assoc Bytes → Type 0
AllNamed [] names = Unit
AllNamed (a ∷ attrs) names = (lookup (alias_of a) names ≡ some a) × AllNamed attrs names

first_read :
    (a : Bytes) (parts : List Bytes) (names : Assoc Bytes)
    → IsPlain a
    → lookup (alias_of a) names ≡ some a
    → projection_names (alias_of a ∷ parts) names ≡ a ∷ projection_names parts names
unfolding projection_names resolve_name_placeholder starts_with or_token
first_read a parts names plain named =
    ground (arith, trim_plain b'#' a (refl, (refl, plain)), named)

reads_back :
    (attrs : List Bytes) (names : Assoc Bytes)
    → AllPlain attrs
    → AllNamed attrs names
    → projection_names (split_on b',' (join (bytes ", ") (map (λ name. alias_of name) attrs))) names
      ≡ attrs
unfolding join projection_names split_on trim_space trim_left trim_right
reads_back [] names plain named = refl
reads_back (a ∷ []) names plain named =
    ap (λ parts. projection_names parts names) (split_last (alias_of a) (refl, (refl, plain.0)))
    ∙ first_read a [] names plain.0 named.0
reads_back (a ∷ b ∷ attrs) names plain named =
    let later = join (bytes ", ") (map (λ name. alias_of name) (b ∷ attrs)) in
    ap (λ t. projection_names (split_on b',' t) names)
      (append_assoc (alias_of a) (bytes ", ") later)
    ∙ ap (λ parts. projection_names parts names)
        (split_plain (alias_of a) (b' ' ∷ later) (refl, (refl, plain.0)))
    ∙ first_read a (split_on b',' (b' ' ∷ later)) names plain.0 named.0
    ∙ ap (a ∷◌) (blank_first later names ∙ reads_back (b ∷ attrs) names plain.1 named.1)

insert_keeps :
    (a b : Bytes) (names : Assoc Bytes)
    → lookup (alias_of a) names ≡ some a
    → lookup (alias_of a) (insert (alias_of b) b names) ≡ some a
insert_keeps a b names h = elim (Bool-cases (alias_of b ≟ alias_of a)) [
  | inl same ↦
      let (there, back) = ≟_iff (alias_of b) (alias_of a) in
      let eq : b ≡ a = ground (arith, there same) in
      ground (arith, lookup-insert (alias_of b) (alias_of a) b names, same, eq)
  | inr other ↦ ground (arith, lookup-insert (alias_of b) (alias_of a) b names, other, h)
]

named_stays :
    (attrs : List Bytes) (a : Bytes) (names : Assoc Bytes)
    → lookup (alias_of a) names ≡ some a
    → lookup (alias_of a) (projection_names_of attrs names) ≡ some a
unfolding projection_names_of
named_stays [] a names h = h
named_stays (b ∷ attrs) a names h =
    named_stays attrs a (insert (alias_of b) b names) (insert_keeps a b names h)

all_named :
    (attrs : List Bytes) (names : Assoc Bytes) → AllNamed attrs (projection_names_of attrs names)
unfolding projection_names_of
all_named [] names = tt
all_named (a ∷ attrs) names =
    let (there, back) = ≟_iff (alias_of a) (alias_of a) in
    (
      named_stays attrs a (insert (alias_of a) a names)
          (ground (arith, lookup-insert (alias_of a) (alias_of a) a names, back refl)),
      all_named attrs (insert (alias_of a) a names),
    )

-- The in-memory backend reads a projection that the client builds as the attributes it was built of,
-- in their order, if none of them has a blank or a comma.
pub parse_projection_attrs-build_projection :
    (attrs : List Bytes)
    → AllPlain attrs
    → parse_projection_attrs (build_projection attrs).0 (build_projection attrs).1 ≡ attrs
unfolding parse_projection_attrs build_projection
parse_projection_attrs-build_projection attrs plain =
    reads_back attrs (projection_names_of attrs []) plain (all_named attrs [])
