-- ===== src/Lexer.antt =====
-- src/lexer/lexer.cpp and include/mattsql/lexer. The cursor `current_` is given by the characters
-- from there on, and moves with `location_` as one `Position`. A scan function takes the position of
-- the token's start, where `Tokenize` calls it, and gives the one behind the token. The tests of
-- <cctype> are those of the C locale.
pub mod Trivia
pub mod Scan
pub mod Progress
pub mod Tokens
pub mod Located
mod Examples
use Prim.Native.String
use Prim.Native.String.{String}
use Prim.Native.Char.{code}
use matt_sql.Prelude.{
  ℕ, zero, suc, ◌+◌, ◌-◌, Bool, true, false, not, ◌&&◌, ◌||◌, List, [], ◌∷◌, length, take, map, ltb,
  leb, ◌==◌, if◌then◌else◌,
}

pub data TokenType : Type 0 where
  end_of_file_token invalid_token : TokenType
  select_token from_token where_token insert_token into_token values_token : TokenType
  create_token table_token drop_token null_token and_token or_token not_token : TokenType
  as_token order_token by_token limit_token true_token false_token : TokenType
  identifier_token integer_token string_token : TokenType
  plus_token minus_token star_token slash_token equal_token not_equal_token : TokenType
  less_token less_equal_token greater_token greater_equal_token : TokenType
  left_paren_token right_paren_token comma_token dot_token semicolon_token : TokenType

pub record SourceLocation : Type 0 where
  pub line : ℕ
  pub column : ℕ
  pub offset : ℕ

pub record SourceRange : Type 0 where
  pub start : SourceLocation
  pub end : SourceLocation

pub record Token : Type 0 where
  pub type : TokenType
  pub lexeme : List ℕ
  pub range : SourceRange

pub record Position : Type 0 where
  pub rest : List ℕ
  pub location : SourceLocation

-- the locale's tests and conversion, of <cctype>
abbrev pub is_space : ℕ → Bool
is_space c = c == b' ' || (leb 9 c && leb c 13)

abbrev pub is_letter : ℕ → Bool
is_letter c = (leb b'a' c && leb c b'z') || (leb b'A' c && leb c b'Z')

abbrev pub to_lower : ℕ → ℕ
to_lower c = if leb b'A' c && leb c b'Z' then c + 32 else c

abbrev pub is_alpha : ℕ → Bool
is_alpha c = is_letter c || c == b'_'

abbrev pub is_digit : ℕ → Bool
is_digit c = leb b'0' c && leb c b'9'

abbrev pub is_alpha_numeric : ℕ → Bool
is_alpha_numeric c = is_alpha c || is_digit c

unfoldable pub fold_identifier_key : List ℕ → List ℕ
fold_identifier_key value = map to_lower value

abbrev pub codes : String → List ℕ
codes String.[] = []
codes (String.◌∷◌ c s) = code c ∷ codes s

abbrev pub text_eq : List ℕ → List ℕ → Bool
text_eq [] [] = true
text_eq (a ∷ s) (b ∷ t) = a == b && text_eq s t
text_eq _ _ = false

abbrev pub keywords : List (List ℕ × TokenType)
keywords =
    (codes "select", select_token)
    ∷ (codes "from", from_token)
    ∷ (codes "where", where_token)
    ∷ (codes "insert", insert_token)
    ∷ (codes "into", into_token)
    ∷ (codes "values", values_token)
    ∷ (codes "create", create_token)
    ∷ (codes "table", table_token)
    ∷ (codes "drop", drop_token)
    ∷ (codes "null", null_token)
    ∷ (codes "and", and_token)
    ∷ (codes "or", or_token)
    ∷ (codes "not", not_token)
    ∷ (codes "as", as_token)
    ∷ (codes "order", order_token)
    ∷ (codes "by", by_token)
    ∷ (codes "limit", limit_token)
    ∷ (codes "true", true_token)
    ∷ (codes "false", false_token)
    ∷ []

find_keyword : List ℕ → List (List ℕ × TokenType) → TokenType
find_keyword lowered [] = identifier_token
find_keyword lowered ((text, type) ∷ entries) =
    if text_eq lowered text then type else find_keyword lowered entries

unfoldable pub lookup_keyword : List ℕ → TokenType
unfolding find_keyword fold_identifier_key
lookup_keyword text = find_keyword (fold_identifier_key text) keywords

abbrev pub peek : List ℕ → ℕ
peek [] = 0
peek (c ∷ cs) = c

abbrev pub peek_next : List ℕ → ℕ
peek_next [] = 0
peek_next (c ∷ cs) = peek cs

unfoldable pub advance_location : ℕ → SourceLocation → SourceLocation
advance_location character location =
    if character == b'\n'
    then record { line = location.line + 1; column = 1; offset = location.offset + 1 }
    else record { line = location.line; column = location.column + 1; offset = location.offset + 1 }

advance_at : List ℕ → SourceLocation → Position
unfolding advance_location
advance_at [] location = record { rest = []; location = location }
advance_at (c ∷ cs) location = record { rest = cs; location = advance_location c location }

-- `Advance`; its result, which is `peek`, is not repeated. No call is at the end.
unfoldable pub advance : Position → Position
unfolding advance_at
advance position = advance_at position.rest position.location

-- The loops `while (test(Peek())) Advance()`, for a test that the end of the input fails.
unfoldable pub advance_while : (ℕ → Bool) → List ℕ → SourceLocation → Position
unfolding advance_location
advance_while test [] location = record { rest = []; location = location }
advance_while test (c ∷ cs) location =
    let rest = advance_while test cs (advance_location c location) in
    if test c then rest else record { rest = c ∷ cs; location = location }
