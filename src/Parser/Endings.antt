-- ===== src/Parser/Endings.antt =====
-- The ends of a parse that the code can have: a value of which `P` holds, or a `ParseError`.
use matt_sql.Prelude.{
  ℕ, ◌≤◌, ◌<◌, ◌==◌, Option, none, some, List, [], ◌∷◌, length, Bool-cases, inl, inr, arith,
}
use matt_sql.Lexer.{TokenType, Token, SourceLocation}
use matt_sql.Parser.Tokens.{
  Parsed, done, parse_error, ◌>>=◌, Parse, underlying, match_token, consume,
}

pub data Ends {A : Type 0} (P : A → Type 0) : Parsed A → Type 0 where
  returns : {a : A} → P a → Ends P (done a)
  throws : (location : SourceLocation) → Ends P (parse_error location)

-- Less than `n` tokens are left.
abbrev pub Leaves : {A : Type 0} → ℕ → A × List Token → Type 0
Leaves n r = length r.1 < n

infixl 1 ◌⟫◌
pub ◌⟫◌ :
    {A B : Type 0} {P : A → Type 0} {Q : B → Type 0} {r : Parsed A} {next : A → Parsed B}
    → Ends P r
    → ((a : A) → P a → Ends Q (next a))
    → Ends Q (r >>= next)
returns {a} h ⟫ step = step a h
throws location ⟫ step = throws location

pub weaken : {A : Type 0} {n m : ℕ} {r : Parse A} → n ≤ m → Ends (Leaves n) r → Ends (Leaves m) r
weaken le (returns h) = returns (omega (arith, le, h))
weaken le (throws location) = throws location

pub consume-Ends :
    (type : TokenType) (tokens : List Token) → Ends (Leaves (length tokens)) (consume type tokens)
unfolding consume
consume-Ends type [] = throws _
consume-Ends type (token ∷ tokens) = elim (Bool-cases (underlying token.type == underlying type)) [
  | inl same ↦ rw same (returns (omega arith))
  | inr other ↦ rw other (throws _)
]

-- What `Match` leaves, where it consumes.
pub data Matched (n : ℕ) : Option (List Token) → Type 0 where
  not_matched : Matched n none
  matched : {behind : List Token} → length behind < n → Matched n (some behind)

pub match_token_ends :
    (type : TokenType) (tokens : List Token) → Matched (length tokens) (match_token type tokens)
unfolding match_token
match_token_ends type [] = not_matched
match_token_ends type (token ∷ tokens) =
    elim (Bool-cases (underlying token.type == underlying type)) [
      | inl same ↦ rw same (matched (omega arith))
      | inr other ↦ rw other not_matched
    ]
