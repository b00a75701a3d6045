-- ===== src/Parser/Expressions.antt =====
-- src/parser/parser.cpp: expressions by precedence climbing. A call that the code makes on one branch
-- only is handed to a function by clauses, which makes it on that branch.
pub mod Ending
use matt_sql.Prelude.{
  ℕ, zero, suc, ◌+◌, ◌-◌, ◌^◌, ltb, leb, Bool, true, false, ◌&&◌, if◌then◌else◌, Option, none, some,
  List, [], ◌∷◌, ◌++◌, length,
}
use matt_sql.Prelude.Int.{ℤ, negsuc}
use matt_sql.Lexer.{
  TokenType, or_token, and_token, not_token, equal_token, not_equal_token, less_token,
  less_equal_token, greater_token, greater_equal_token, plus_token, minus_token, star_token,
  slash_token, integer_token, string_token, true_token, false_token, null_token, identifier_token,
  left_paren_token, right_paren_token, dot_token, Token, codes, text_eq,
}
use matt_sql.Parser.Ast.{
  UnaryOperator, plus, minus, logical_not, BinaryOperator, add, subtract, multiply, divide, equal,
  not_equal, less, less_equal, greater, greater_equal, logical_and, logical_or, ExpressionPtr,
  integer_literal, string_literal, boolean_literal, null_literal, column_ref, unary_expression,
  binary_expression, star_expression,
}
use matt_sql.Parser.Tokens.{
  Parsed, done, parse_error, logic_error, out_of_fuel, ◌>>=◌, Parse, peek, rest_of, check, consume,
}
use matt_sql.Parser.Literals.{unescape_sql_string, stoll}

-- `GetBinaryPrecedence`; none stands for -1, which is below every minimum.
abbrev pub binary_precedence : TokenType → Option ℕ
binary_precedence or_token = some 1
binary_precedence and_token = some 2
binary_precedence equal_token = some 4
binary_precedence not_equal_token = some 4
binary_precedence less_token = some 4
binary_precedence less_equal_token = some 4
binary_precedence greater_token = some 4
binary_precedence greater_equal_token = some 4
binary_precedence plus_token = some 5
binary_precedence minus_token = some 5
binary_precedence star_token = some 6
binary_precedence slash_token = some 6
binary_precedence _ = none

abbrev pub token_to_binary_operator : TokenType → Parsed BinaryOperator
token_to_binary_operator plus_token = done add
token_to_binary_operator minus_token = done subtract
token_to_binary_operator star_token = done multiply
token_to_binary_operator slash_token = done divide
token_to_binary_operator equal_token = done equal
token_to_binary_operator not_equal_token = done not_equal
token_to_binary_operator less_token = done less
token_to_binary_operator less_equal_token = done less_equal
token_to_binary_operator greater_token = done greater
token_to_binary_operator greater_equal_token = done greater_equal
token_to_binary_operator and_token = done logical_and
token_to_binary_operator or_token = done logical_or
token_to_binary_operator _ = logic_error

abbrev pub token_to_unary_operator : TokenType → Parsed UnaryOperator
token_to_unary_operator plus_token = done plus
token_to_unary_operator minus_token = done minus
token_to_unary_operator not_token = done logical_not
token_to_unary_operator _ = logic_error

abbrev pub is_minus_token : TokenType → Bool
is_minus_token minus_token = true
is_minus_token _ = false

abbrev pub is_sign : TokenType → Bool
is_sign plus_token = true
is_sign minus_token = true
is_sign _ = false

abbrev pub is_least : TokenType → List Token → Bool
is_least type tokens =
    is_minus_token type
    && check integer_token tokens
    && text_eq (peek tokens).lexeme (codes "9223372036854775808")

-- kNotPrecedence
abbrev pub not_precedence : ℕ
not_precedence = 3

-- The loop over the parts of a dotted name.
unfoldable pub parse_dotted : List ℕ → List Token → Parse ExpressionPtr
parse_dotted name [] = done (column_ref name, [])
parse_dotted name (token ∷ []) =
    if check dot_token (token ∷ [])
    then parse_error (peek []).range.start
    else done (column_ref name, token ∷ [])
parse_dotted name (token ∷ part ∷ tokens) =
    let more = parse_dotted (name ++ codes "." ++ part.lexeme) tokens in
    if check dot_token (token ∷ [])
    then (if check identifier_token (part ∷ []) then more else parse_error part.range.start)
    else done (column_ref name, token ∷ part ∷ tokens)

abbrev pub integer_of : Token → List Token → Option ℤ → Parse ExpressionPtr
integer_of token tokens none = parse_error token.range.start
integer_of token tokens (some value) = done (integer_literal value, tokens)

abbrev pub string_of : Token → List Token → Option (List ℕ) → Parse ExpressionPtr
string_of token tokens none = parse_error token.range.start
string_of token tokens (some value) = done (string_literal value, tokens)

module _ (parse_expression : ℕ → List Token → Parse ExpressionPtr) where
  -- The branches of `ParsePrimaryExpression`, at a token of the type.
  unfoldable pub primary_at : TokenType → Token → List Token → Parse ExpressionPtr
  primary_at integer_token token tokens = integer_of token tokens (stoll token.lexeme)
  primary_at string_token token tokens = string_of token tokens (unescape_sql_string token.lexeme)
  primary_at true_token token tokens = done (boolean_literal true, tokens)
  primary_at false_token token tokens = done (boolean_literal false, tokens)
  primary_at null_token token tokens = done (null_literal, tokens)
  primary_at star_token token tokens = done (star_expression, tokens)
  primary_at identifier_token token tokens = parse_dotted token.lexeme tokens
  primary_at left_paren_token token tokens = do
    (expression, tokens1) ← parse_expression 0 tokens
    (_, tokens2) ← consume right_paren_token tokens1
    done (expression, tokens2)
  primary_at _ token tokens = parse_error token.range.start

  unfoldable pub parse_primary_expression : List Token → Parse ExpressionPtr
  parse_primary_expression tokens = primary_at (peek tokens).type (peek tokens) (rest_of tokens)

  -- The branch of a sign: the least integer, or an operand that `again` parses.
  unfoldable pub signed_at :
      Bool → TokenType → List Token → (Bool → Parse ExpressionPtr) → Parse ExpressionPtr
  signed_at true type tokens again = done (integer_literal (negsuc (2 ^ 63 - 1)), rest_of tokens)
  signed_at false type tokens again = do
    operator ← token_to_unary_operator type
    (operand, rest) ← again true
    done (unary_expression operator operand, rest)

  unfoldable pub prefix_at :
      Bool
      → TokenType
      → List Token
      → List Token
      → (Bool → Parse ExpressionPtr)
      → Parse ExpressionPtr
  prefix_at true type all tokens again = signed_at (is_least type tokens) type tokens again
  prefix_at false type all tokens again = parse_primary_expression all

  unfoldable pub parse_prefix_expression : List Token → Parse ExpressionPtr
  parse_prefix_expression [] = parse_primary_expression []
  parse_prefix_expression (token ∷ tokens) =
      prefix_at (is_sign token.type) token.type (token ∷ tokens) tokens
        (λ _. parse_prefix_expression tokens)

  -- The loop of `ParseExpression` behind `left`: `again` is its next round.
  unfoldable pub operation_at :
      Bool
      → ℕ
      → ExpressionPtr
      → TokenType
      → List Token
      → (ExpressionPtr → List Token → Parse ExpressionPtr)
      → Parse ExpressionPtr
  operation_at true precedence left type tokens again = done (left, tokens)
  operation_at false precedence left type tokens again = do
    (right, rest) ← parse_expression (precedence + 1) (rest_of tokens)
    operator ← token_to_binary_operator type
    again (binary_expression left operator right) rest

  unfoldable pub operators_at :
      ℕ
      → ExpressionPtr
      → Option ℕ
      → List Token
      → (ExpressionPtr → List Token → Parse ExpressionPtr)
      → Parse ExpressionPtr
  operators_at min_precedence left none tokens again = done (left, tokens)
  operators_at min_precedence left (some precedence) tokens again =
      operation_at (ltb precedence min_precedence) precedence left (peek tokens).type tokens again

  unfoldable pub parse_operators : ℕ → ℕ → ExpressionPtr → List Token → Parse ExpressionPtr
  parse_operators zero min_precedence left tokens = out_of_fuel
  parse_operators (suc n) min_precedence left tokens =
      operators_at min_precedence left (binary_precedence (peek tokens).type) tokens
        (λ left rest. parse_operators n min_precedence left rest)

  -- `ParseExpression`, where it sees NOT at the front or does not.
  unfoldable pub expression_at : ℕ → ℕ → Bool → List Token → Parse ExpressionPtr
  expression_at n min_precedence true tokens = do
    (operand, rest) ← parse_expression not_precedence (rest_of tokens)
    done (unary_expression logical_not operand, rest)
  expression_at n min_precedence false tokens = do
    (left, rest) ← parse_prefix_expression tokens
    parse_operators n min_precedence left rest

-- `ParseExpression`; the fuel bounds the nesting of its calls, and the rounds of each.
unfoldable pub parse_expression_in : ℕ → ℕ → List Token → Parse ExpressionPtr
parse_expression_in zero min_precedence tokens = out_of_fuel
parse_expression_in (suc n) min_precedence tokens =
    expression_at (parse_expression_in n) n min_precedence
      (leb min_precedence not_precedence && check not_token tokens) tokens

-- `ParseExpression` from the current token, with the default minimum. Each call but the first and
-- each round takes a token, so their number is fuel enough, with one more.
unfoldable pub parse_expression : List Token → Parse ExpressionPtr
parse_expression tokens = parse_expression_in (suc (length tokens)) 0 tokens
