-- ===== src/Lexer/Scan.antt =====
-- `ScanToken` and `Tokenize` of src/lexer/lexer.cpp.
use matt_sql.Prelude.{
  ℕ, zero, suc, ◌-◌, Bool, true, false, List, [], ◌∷◌, length, take, ◌==◌, if◌then◌else◌,
}
use matt_sql.Lexer.{
  Position, SourceLocation, Token, TokenType, is_alpha, is_digit, is_alpha_numeric, peek, advance,
  advance_location, advance_while, lookup_keyword, end_of_file_token, invalid_token, integer_token,
  string_token, plus_token, minus_token, star_token, slash_token, equal_token, not_equal_token,
  less_token, less_equal_token, greater_token, greater_equal_token, left_paren_token,
  right_paren_token, comma_token, dot_token, semicolon_token,
}
use matt_sql.Lexer.Trivia.{stopped, throws_error, unfinished, skip_trivia}

-- `input_.substr(start_, current_ - start_)`
abbrev pub slice : Position → Position → List ℕ
slice start end = take (length start.rest - length end.rest) start.rest

abbrev pub make_token_of : TokenType → List ℕ → Position → Position → Token
make_token_of type lexeme start end = record {
  type = type;
  lexeme = lexeme;
  range = record { start = start.location; end = end.location };
}

abbrev pub make_token : TokenType → Position → Position → Token
make_token type start end = make_token_of type (slice start end) start end

unfoldable pub scan_identifier_or_keyword : Position → Position × Token
scan_identifier_or_keyword start =
    let end = advance_while is_alpha_numeric start.rest start.location in
    (end, make_token (lookup_keyword (slice start end)) start end)

unfoldable pub scan_number : Position → Position × Token
scan_number start =
    let end = advance_while is_digit start.rest start.location in
    (end, make_token integer_token start end)

-- The loop of `ScanString`: whether the closing quote was found, and the position behind.
unfoldable pub string_body : List ℕ → SourceLocation → Bool × Position
string_body [] location = (false, record { rest = []; location = location })
string_body (c ∷ []) location =
    (c == b'\'', record { rest = []; location = advance_location c location })
string_body (c ∷ d ∷ cs) location = elim (c == b'\'') [
  | false ↦ string_body (d ∷ cs) (advance_location c location)
  | true ↦ elim (d == b'\'') [
    | true ↦ string_body cs (advance_location d (advance_location c location))
    | false ↦ (true, record { rest = d ∷ cs; location = advance_location c location })
  ]
]

unfoldable pub scan_string : Position → Position × Token
unfolding string_body
scan_string start =
    let opened = advance start in
    let (closed, end) = string_body opened.rest opened.location in
    (end, make_token (if closed then string_token else invalid_token) start end)

abbrev pub match_char : ℕ → Position → Bool × Position
match_char expected position = elim position.rest [
  | [] ↦ (false, position)
  | c ∷ cs ↦ if c == expected then (true, advance position) else (false, position)
]

unfoldable pub operator_or : ℕ → TokenType → TokenType → Position → TokenType × Position
operator_or expected long short position =
    let (matched, end) = match_char expected position in (if matched then long else short, end)

unfoldable pub less_operator : Position → TokenType × Position
less_operator position =
    let (matched, end) = match_char b'=' position in
    let shorter = operator_or b'>' not_equal_token less_token position in
    if matched then (less_equal_token, end) else shorter

-- The switch on the first character, with the position behind it.
unfoldable pub operator_at : ℕ → Position → TokenType × Position
operator_at c position =
    if c == b'+'
    then (plus_token, position)
    else if c == b'-'
    then (minus_token, position)
    else if c == b'*'
    then (star_token, position)
    else if c == b'/'
    then (slash_token, position)
    else if c == b'='
    then (equal_token, position)
    else if c == b'!'
    then operator_or b'=' not_equal_token invalid_token position
    else if c == b'<'
    then less_operator position
    else if c == b'>'
    then operator_or b'=' greater_equal_token greater_token position
    else if c == b'('
    then (left_paren_token, position)
    else if c == b')'
    then (right_paren_token, position)
    else if c == b','
    then (comma_token, position)
    else if c == b'.'
    then (dot_token, position)
    else if c == b';'
    then (semicolon_token, position)
    else (invalid_token, position)

unfoldable pub scan_operator_or_punctuation : Position → Position × Token
scan_operator_or_punctuation start =
    let (type, end) = operator_at (peek start.rest) (advance start) in
    (end, make_token type start end)

unfoldable pub scan_token : Position → Position × Token
scan_token start = elim start.rest [
  | [] ↦ (start, make_token_of end_of_file_token [] start start)
  | c ∷ cs ↦
      if is_alpha c
      then scan_identifier_or_keyword start
      else if is_digit c
      then scan_number start
      else if c == b'\''
      then scan_string start
      else scan_operator_or_punctuation start
]

-- The tokens, the exception, or the rounds used up.
pub data Tokens : Type 0 where
  tokens : List Token → Tokens
  comment_error no_rounds : Tokens

unfoldable pub add_token : Token → Tokens → Tokens
add_token token (tokens rest) = tokens (token ∷ rest)
add_token token comment_error = comment_error
add_token token no_rounds = no_rounds

abbrev pub is_end_of_file : TokenType → Bool
is_end_of_file end_of_file_token = true
is_end_of_file _ = false

unfoldable pub tokenize_from : ℕ → Position → Tokens
tokenize_from zero position = no_rounds
tokenize_from (suc rounds) position = elim (skip_trivia (suc (length position.rest)) position) [
  | unfinished ↦ no_rounds
  | throws_error ↦ comment_error
  | stopped start ↦ elim (is_end_of_file (scan_token start).1.type) [
    | true ↦ tokens ((scan_token start).1 ∷ [])
    | false ↦ add_token (scan_token start).1 (tokenize_from rounds (scan_token start).0)
  ]
]

abbrev pub start_of : List ℕ → Position
start_of input = record { rest = input; location = record { line = 1; column = 1; offset = 0 } }

unfoldable pub tokenize : List ℕ → Tokens
tokenize input = tokenize_from (suc (length input)) (start_of input)
