-- ===== src/Client/Conditions/Tokens.antt =====
-- condition.go: tokenizeExpr, which is not the one of memdb. The index i of the loop is the number
-- of bytes of the current token that are still to be passed.
use dynago.Prelude.{
  ℕ, zero, suc, ◌-◌, Bool, ◌||◌, List, [], ◌∷◌, Bytes, Option, none, some, ◌==◌, take,
  if◌then◌else◌,
}
use dynago.Memdb.Tokens.{is_ident_start, is_ident_part, is_digit, is_space, is_two, span}

is_mark : ℕ → Bool
is_mark ch =
    ch == b'?' || ch == b'(' || ch == b')' || ch == b',' || ch == b'=' || ch == b'<' || ch == b'>'

-- The length of the token that starts at `ch`, with `s` behind it; none if `ch` is skipped.
cond_token_length : ℕ → Bytes → Option ℕ
unfolding is_ident_start is_ident_part is_digit is_space is_two span is_mark
cond_token_length ch s =
    if is_space ch
    then none
    else if is_two ch s
    then some 2
    else if is_mark ch
    then some 1
    else if is_ident_start ch || ch == b'#'
    then some (suc (span (λ c. is_ident_part c || c == b'.' || c == b'_') s))
    else if is_digit ch
    then some (suc (span (λ c. is_digit c || c == b'.') s))
    else none

cond_tokens_from : ℕ → Bytes → List Bytes
unfolding cond_token_length
cond_tokens_from passing [] = []
cond_tokens_from (suc passing) (ch ∷ s) = cond_tokens_from passing s
cond_tokens_from zero (ch ∷ s) = elim (cond_token_length ch s) [
  | none ↦ cond_tokens_from zero s
  | some n ↦ take n (ch ∷ s) ∷ cond_tokens_from (n - 1) s
]

-- tokenizeExpr
unfoldable pub cond_tokens : Bytes → List Bytes
unfolding cond_tokens_from
cond_tokens s = cond_tokens_from zero s
