-- ===== src/Memdb/Parsing.antt =====
-- memdb/expression.go: what exprParser and updateParser share. A parser's state is the list of the
-- tokens from `pos` on.
use dynago.Prelude.{
  Bool, List, [], ◌∷◌, Bytes, Assoc, ◌≟◌, equal_fold, if◌then◌else◌, Result, ok, err, expression,
  panic,
}
use dynago.Attribute.{Item}

abbrev pub Parser {ℓ} : Type ℓ → Type ℓ
Parser A = List Bytes → Result (A × List Bytes)

-- The maps of placeholders, which stay fixed while parsing.
pub record Placeholders : Type 0 where
  pub names : Assoc Bytes
  pub values : Item

abbrev pub pure {ℓ} : {A : Type ℓ} → A → Parser A
pure a ts = ok (a, ts)

abbrev pub fail {ℓ} : {A : Type ℓ} → Parser A
fail ts = err expression

infixl 5 ◌>>=◌ ◌>>◌
abbrev pub ◌>>=◌ {ℓ κ} : {A : Type ℓ} {B : Type κ} → Parser A → (A → Parser B) → Parser B
◌>>=◌ p f ts = elim (p ts) [ ok (a, rest) ↦ f a rest | err e ↦ err e ]

abbrev pub ◌>>◌ {ℓ κ} : {A : Type ℓ} {B : Type κ} → Parser A → Parser B → Parser B
p >> q = p >>= λ _. q

-- The token at `pos`, or "" at the end.
abbrev pub peek : List Bytes → Bytes
peek [] = []
peek (t ∷ ts) = t

-- Reading past the end is an index out of range.
abbrev pub advance : Parser Bytes
advance [] = err panic
advance (t ∷ ts) = ok (t, ts)

abbrev pub rest_of : List Bytes → List Bytes
rest_of [] = []
rest_of (t ∷ ts) = ts

unfoldable pub expect : Bytes → Parser (Unit {0})
unfolding ◌≟◌
expect tok [] = err expression
expect tok (t ∷ ts) = if t ≟ tok then ok (tt, ts) else err expression

-- Whether the next token is a keyword, in any case.
unfoldable pub at_keyword : Bytes → List Bytes → Bool
unfolding equal_fold
at_keyword word ts = equal_fold (peek ts) word

-- Whether the next token is exactly this one.
unfoldable pub at_token : Bytes → List Bytes → Bool
unfolding ◌≟◌
at_token tok ts = peek ts ≟ tok
