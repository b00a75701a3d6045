-- ===== src/Lexer/Examples.antt =====
-- Runs of the lexer, and the theorems on it at them.
use matt_sql.Prelude.{ℕ, ◌≡◌, refl, List, [], ◌∷◌, All}
use matt_sql.Lexer.{
  Token, TokenType, SourceLocation, codes, advance, advance_location, advance_while, lookup_keyword,
  fold_identifier_key, select_token, identifier_token, less_equal_token, integer_token,
  end_of_file_token, string_token,
}
use matt_sql.Lexer.Trivia.{skip_block, skip_block_comment, trivia_round, skip_trivia}
use matt_sql.Lexer.Scan.{
  scan_identifier_or_keyword, scan_number, string_body, scan_string, operator_or, less_operator,
  operator_at, scan_operator_or_punctuation, scan_token, tokens, comment_error, add_token,
  tokenize_from, tokenize, start_of,
}
use matt_sql.Lexer.Located.{TokenizeEnd, IsLocated, tokenize-TokenizeEnd, tokenize-IsLocated}

abbrev at_line : ℕ → ℕ → ℕ → SourceLocation
at_line line column offset = record { line = line; column = column; offset = offset }

abbrev token_of : TokenType → List ℕ → SourceLocation → SourceLocation → Token
token_of type lexeme start end = record {
  type = type;
  lexeme = lexeme;
  range = record { start = start; end = end };
}

-- a query in two lines, with a comment
abbrev query : List ℕ
query = codes "SELECT a--b\n<=7 "

abbrev query_tokens : List Token
query_tokens =
    token_of select_token (codes "SELECT") (at_line 1 1 0) (at_line 1 7 6)
    ∷ token_of identifier_token (codes "a") (at_line 1 8 7) (at_line 1 9 8)
    ∷ token_of less_equal_token (codes "<=") (at_line 2 1 12) (at_line 2 3 14)
    ∷ token_of integer_token (codes "7") (at_line 2 3 14) (at_line 2 4 15)
    ∷ token_of end_of_file_token [] (at_line 2 5 16) (at_line 2 5 16)
    ∷ []

query_run : tokenize query ≡ tokens query_tokens
unfolding tokenize tokenize_from add_token scan_token scan_identifier_or_keyword scan_number
    scan_operator_or_punctuation operator_at less_operator operator_or skip_trivia trivia_round
    advance advance_while advance_location lookup_keyword fold_identifier_key
query_run = refl

text_run :
    tokenize (codes "'it''s'")
    ≡ tokens (
        token_of string_token (codes "'it''s'") (at_line 1 1 0) (at_line 1 8 7)
        ∷ token_of end_of_file_token [] (at_line 1 8 7) (at_line 1 8 7)
        ∷ [])
unfolding tokenize tokenize_from add_token scan_token scan_string string_body skip_trivia
    trivia_round advance advance_location
text_run = refl

comment_run : tokenize (codes "/* *") ≡ comment_error
unfolding tokenize tokenize_from skip_trivia trivia_round skip_block skip_block_comment advance
    advance_location
comment_run = refl

tokenize-TokenizeEnd_example : TokenizeEnd (start_of query) (tokenize query)
tokenize-TokenizeEnd_example = tokenize-TokenizeEnd query

tokenize-IsLocated_example : All (IsLocated query) query_tokens
tokenize-IsLocated_example = tokenize-IsLocated query query_run
