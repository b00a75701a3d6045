-- ===== src/Parser/Tokens.antt =====
-- src/parser/parser.cpp: how a parse ends, and the functions on the current token.
use matt_sql.Prelude.{ℕ, ◌==◌, Bool, if◌then◌else◌, Option, none, some, List, [], ◌∷◌, ◌++◌}
use matt_sql.Lexer.{
  TokenType, end_of_file_token, invalid_token, select_token, from_token, where_token, insert_token,
  into_token, values_token, create_token, table_token, drop_token, null_token, and_token, or_token,
  not_token, as_token, order_token, by_token, limit_token, true_token, false_token,
  identifier_token, integer_token, string_token, plus_token, minus_token, star_token, slash_token,
  equal_token, not_equal_token, less_token, less_equal_token, greater_token, greater_equal_token,
  left_paren_token, right_paren_token, comma_token, dot_token, semicolon_token, SourceLocation,
  Token,
}

-- How a call ends: it returns, or throws a `ParseError` or the `logic_error` of an operator's
-- conversion. A model's loop may run out of fuel too.
pub data Parsed {ℓ} (A : Type ℓ) : Type ℓ where
  done : A → Parsed A
  parse_error : SourceLocation → Parsed A
  logic_error : Parsed A
  out_of_fuel : Parsed A

infixl 1 ◌>>=◌
abbrev pub ◌>>=◌ {ℓ κ} : {A : Type ℓ} {B : Type κ} → Parsed A → (A → Parsed B) → Parsed B
done a >>= next = next a
parse_error location >>= next = parse_error location
logic_error >>= next = logic_error
out_of_fuel >>= next = out_of_fuel

-- What a parse function gives: a value, and the tokens behind it.
abbrev pub Parse {ℓ} : Type ℓ → Type ℓ
Parse A = Parsed (A × List Token)

-- the value of an enumerator
abbrev pub underlying : TokenType → ℕ
underlying end_of_file_token = 0
underlying invalid_token = 1
underlying select_token = 2
underlying from_token = 3
underlying where_token = 4
underlying insert_token = 5
underlying into_token = 6
underlying values_token = 7
underlying create_token = 8
underlying table_token = 9
underlying drop_token = 10
underlying null_token = 11
underlying and_token = 12
underlying or_token = 13
underlying not_token = 14
underlying as_token = 15
underlying order_token = 16
underlying by_token = 17
underlying limit_token = 18
underlying true_token = 19
underlying false_token = 20
underlying identifier_token = 21
underlying integer_token = 22
underlying string_token = 23
underlying plus_token = 24
underlying minus_token = 25
underlying star_token = 26
underlying slash_token = 27
underlying equal_token = 28
underlying not_equal_token = 29
underlying less_token = 30
underlying less_equal_token = 31
underlying greater_token = 32
underlying greater_equal_token = 33
underlying left_paren_token = 34
underlying right_paren_token = 35
underlying comma_token = 36
underlying dot_token = 37
underlying semicolon_token = 38

abbrev pub end_at : SourceLocation → Token
end_at location = record {
  type = end_of_file_token;
  lexeme = [];
  range = record { start = location; end = location };
}

abbrev pub last_token : Token → List Token → Token
last_token token [] = token
last_token token (next ∷ tokens) = last_token next tokens

abbrev pub is_end : Token → Bool
is_end token = underlying token.type == underlying end_of_file_token

-- The constructor `Parser`: the tokens end with that of the end.
unfoldable pub parser_of : List Token → List Token
parser_of [] = end_at (record { line = 1; column = 1; offset = 0 }) ∷ []
parser_of (token ∷ tokens) =
    let last = last_token token tokens in
    if is_end last then token ∷ tokens else token ∷ tokens ++ end_at last.range.end ∷ []

-- `Peek`. No call has an empty list: the end is not passed by.
abbrev pub peek : List Token → Token
peek [] = end_at (record { line = 1; column = 1; offset = 0 })
peek (token ∷ tokens) = token

-- The tokens behind the current one, where `Advance` goes. No call is at the end.
abbrev pub rest_of : List Token → List Token
rest_of [] = []
rest_of (token ∷ tokens) = tokens

abbrev pub check : TokenType → List Token → Bool
check type tokens = underlying (peek tokens).type == underlying type

-- `Match`: what is behind the token, if it is of the type.
unfoldable pub match_token : TokenType → List Token → Option (List Token)
match_token type [] = none
match_token type (token ∷ tokens) =
    if underlying token.type == underlying type then some tokens else none

unfoldable pub consume : TokenType → List Token → Parse Token
consume type [] = parse_error (peek []).range.start
consume type (token ∷ tokens) =
    if underlying token.type == underlying type
    then done (token, tokens)
    else parse_error token.range.start
