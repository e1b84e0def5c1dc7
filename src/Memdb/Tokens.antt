-- ===== src/Memdb/Tokens.antt =====
-- memdb/expression.go: tokenizeExpr. The index i of the loop is the number of bytes of the current
-- token that are still to be passed.
use dynago.Prelude.{
  ℕ, zero, suc, ◌-◌, Bool, false, ◌&&◌, ◌||◌, List, [], ◌∷◌, Bytes, Option, none, some, leb, ◌==◌,
  take, if◌then◌else◌,
}

unfoldable pub is_ident_start : ℕ → Bool
is_ident_start ch = (leb b'a' ch && leb ch b'z') || (leb b'A' ch && leb ch b'Z') || ch == b'_'

unfoldable pub is_digit : ℕ → Bool
is_digit ch = leb b'0' ch && leb ch b'9'

unfoldable pub is_ident_part : ℕ → Bool
unfolding is_ident_start is_digit
is_ident_part ch = is_ident_start ch || is_digit ch

unfoldable pub is_space : ℕ → Bool
is_space ch = ch == b' ' || ch == 9 || ch == 10 || ch == 13

is_single : ℕ → Bool
is_single ch =
    ch == b'('
    || ch == b')'
    || ch == b','
    || ch == b'='
    || ch == b'<'
    || ch == b'>'
    || ch == b'+'
    || ch == b'-'

-- "<>", "<=" or ">="
unfoldable pub is_two : ℕ → Bytes → Bool
is_two ch [] = false
is_two ch (next ∷ s) =
    (ch == b'<' && next == b'>') || (ch == b'<' && next == b'=') || (ch == b'>' && next == b'=')

-- The length of the longest prefix whose bytes pass a test.
unfoldable pub span : (ℕ → Bool) → Bytes → ℕ
span p [] = 0
span p (c ∷ s) = let n = span p s in if p c then suc n else 0

-- The length of the token that starts at `ch`, with `s` behind it; none if `ch` is skipped.
token_length : ℕ → Bytes → Option ℕ
unfolding is_ident_part is_space is_single is_two span
token_length ch s =
    if is_space ch
    then none
    else if is_two ch s
    then some 2
    else if is_single ch
    then some 1
    else if ch == b':' || ch == b'#'
    then some (suc (span is_ident_part s))
    else if is_ident_start ch
    then some (suc (span (λ c. is_ident_part c || c == b'.') s))
    else if is_digit ch
    then some (suc (span (λ c. is_digit c || c == b'.') s))
    else none

tokens_from : ℕ → Bytes → List Bytes
unfolding token_length
tokens_from passing [] = []
tokens_from (suc passing) (ch ∷ s) = tokens_from passing s
tokens_from zero (ch ∷ s) = elim (token_length ch s) [
  | none ↦ tokens_from zero s
  | some n ↦ take n (ch ∷ s) ∷ tokens_from (n - 1) s
]

-- tokenizeExpr
unfoldable pub tokenize_expr : Bytes → List Bytes
unfolding tokens_from
tokenize_expr s = tokens_from zero s
