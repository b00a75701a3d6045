-- ===== src/Parser/Examples.antt =====
-- Runs of the parser, and the theorem on it at one.
use matt_sql.Prelude.{ℕ, ◌≡◌, refl, List, [], ◌∷◌}
use matt_sql.Prelude.Int.{pos, negsuc}
use matt_sql.Lexer.{
  TokenType, select_token, from_token, where_token, not_token, identifier_token, integer_token,
  plus_token, minus_token, star_token, equal_token, semicolon_token, SourceLocation, Token, codes,
}
use matt_sql.Parser.Ast.{
  minus, logical_not, add, multiply, equal, ExpressionPtr, integer_literal, column_ref,
  unary_expression, binary_expression, SelectStatement, select,
}
use matt_sql.Parser.Tokens.{done, parse_error, parser_of, match_token, consume}
use matt_sql.Parser.Endings.{Ends}
use matt_sql.Parser.Literals.{stoll}
use matt_sql.Parser.Expressions.{
  parse_expression, parse_expression_in, expression_at, parse_operators, operators_at, operation_at,
  parse_prefix_expression, prefix_at, signed_at, parse_primary_expression, primary_at, parse_dotted,
}
use matt_sql.Parser.Statements.{
  parse_statement, statement_at, parse_select_statement, comma_separated, separated, after_item,
  parse_projection, parse_alias, parse_from, parse_where,
}
use matt_sql.Parser.Statements.Ending.{HasItems, parse_statement-Ends}

abbrev start : SourceLocation
start = record { line = 1; column = 1; offset = 0 }

abbrev token : TokenType → List ℕ → Token
token type lexeme = record {
  type = type;
  lexeme = lexeme;
  range = record { start = start; end = start };
}

-- SELECT - a + 2 * b FROM t WHERE NOT a = 1 + 1;
abbrev query : List Token
query =
    token select_token []
    ∷ token minus_token []
    ∷ token identifier_token (codes "a")
    ∷ token plus_token []
    ∷ token integer_token (codes "2")
    ∷ token star_token []
    ∷ token identifier_token (codes "b")
    ∷ token from_token []
    ∷ token identifier_token (codes "t")
    ∷ token where_token []
    ∷ token not_token []
    ∷ token identifier_token (codes "a")
    ∷ token equal_token []
    ∷ token integer_token (codes "1")
    ∷ token plus_token []
    ∷ token integer_token (codes "1")
    ∷ token semicolon_token []
    ∷ []

abbrev column : ExpressionPtr
column = column_ref (codes "a")

abbrev parsed_query : SelectStatement
parsed_query = record {
  projections =
      record {
        expression =
            binary_expression (unary_expression minus column) add
              (binary_expression (integer_literal (pos 2)) multiply (column_ref (codes "b")));
        alias = [];
      }
      ∷ [];
  table_name = codes "t";
  where_clause = unary_expression logical_not (
      binary_expression column equal
        (binary_expression (integer_literal (pos 1)) add (integer_literal (pos 1))));
}

query_run : parse_statement query ≡ done (select parsed_query)
unfolding parse_statement statement_at parse_select_statement comma_separated separated after_item
    parse_projection parse_alias parse_from parse_where parse_expression parse_expression_in
    expression_at parse_operators operators_at operation_at parse_prefix_expression prefix_at
    signed_at parse_primary_expression primary_at parse_dotted parser_of match_token consume stoll
query_run = refl

-- the least integer has no positive literal
least_run :
    parse_expression (token minus_token [] ∷ token integer_token (codes "9223372036854775808") ∷ [])
    ≡ done (integer_literal (negsuc 9223372036854775807), [])
unfolding parse_expression parse_expression_in expression_at parse_operators operators_at
    operation_at parse_prefix_expression prefix_at signed_at parse_primary_expression primary_at
    stoll
least_run = refl

too_large_run :
    parse_expression (token integer_token (codes "9223372036854775808") ∷ []) ≡ parse_error start
unfolding parse_expression parse_expression_in expression_at parse_operators operators_at
    operation_at parse_prefix_expression prefix_at signed_at parse_primary_expression primary_at
    stoll
too_large_run = refl

parse_statement-Ends_example : Ends HasItems (parse_statement query)
parse_statement-Ends_example = parse_statement-Ends query
