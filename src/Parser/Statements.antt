-- ===== src/Parser/Statements.antt =====
-- src/parser/parser.cpp: statements.
pub mod Ending
use matt_sql.Prelude.{
  ℕ, zero, suc, ◌||◌, ◌==◌, Bool, true, false, if◌then◌else◌, Option, none, some, List, [], ◌∷◌,
  length,
}
use matt_sql.Lexer.{
  TokenType, end_of_file_token, select_token, from_token, where_token, insert_token, into_token,
  values_token, create_token, table_token, as_token, identifier_token, left_paren_token,
  right_paren_token, comma_token, semicolon_token, Token, codes, text_eq, fold_identifier_key,
}
use matt_sql.Parser.Ast.{
  ExpressionPtr, null_expression, SelectProjection, SelectStatement, InsertStatement, TypeName,
  int_name, text_name, bool_name, ColumnDefinition, CreateTableStatement, Statement, select, insert,
  create,
}
use matt_sql.Parser.Tokens.{
  Parsed, done, parse_error, out_of_fuel, ◌>>=◌, Parse, peek, check, match_token, consume,
  parser_of,
}
use matt_sql.Parser.Expressions.{parse_expression}

-- The three loops over items that commas separate: an item, and the rest if `Match(Comma)`.
module _ {A : Type 0} (item : List Token → Parse A) where
  unfoldable pub after_item :
      A → List Token → Option (List Token) → (List Token → Parse (List A)) → Parse (List A)
  after_item value tokens none again = done (value ∷ [], tokens)
  after_item value tokens (some behind) again = do
    (values, rest) ← again behind
    done (value ∷ values, rest)

  unfoldable pub separated : ℕ → List Token → Parse (List A)
  separated zero tokens = out_of_fuel
  separated (suc n) tokens = do
    (value, rest) ← item tokens
    after_item value rest (match_token comma_token rest) (λ behind. separated n behind)

-- Each round takes a token.
unfoldable pub comma_separated : {A : Type 0} → (List Token → Parse A) → List Token → Parse (List A)
comma_separated item tokens = separated item (suc (length tokens)) tokens

abbrev pub parse_expression_list : List Token → Parse (List ExpressionPtr)
parse_expression_list tokens = comma_separated parse_expression tokens

-- The alias, where AS was seen.
unfoldable pub parse_alias : List Token → Option (List Token) → Parse (List ℕ)
parse_alias tokens none = done ([], tokens)
parse_alias tokens (some behind) = do
  (name, rest) ← consume identifier_token behind
  done (name.lexeme, rest)

unfoldable pub parse_projection : List Token → Parse SelectProjection
parse_projection tokens = do
  (expression, rest) ← parse_expression tokens
  (alias, rest2) ← parse_alias rest (match_token as_token rest)
  done (record { expression = expression; alias = alias }, rest2)

abbrev pub parse_select_projection_list : List Token → Parse (List SelectProjection)
parse_select_projection_list tokens = comma_separated parse_projection tokens

-- The table, where FROM was seen.
unfoldable pub parse_from : List Token → Option (List Token) → Parse (List ℕ)
parse_from tokens none = done ([], tokens)
parse_from tokens (some behind) = do
  (name, rest) ← consume identifier_token behind
  done (name.lexeme, rest)

-- The condition, where WHERE was seen.
unfoldable pub parse_where : List Token → Option (List Token) → Parse ExpressionPtr
parse_where tokens none = done (null_expression, tokens)
parse_where tokens (some behind) = parse_expression behind

unfoldable pub parse_select_statement : List Token → Parse Statement
parse_select_statement tokens = do
  (projections, rest) ← parse_select_projection_list tokens
  (table_name, rest2) ← parse_from rest (match_token from_token rest)
  (condition, rest3) ← parse_where rest2 (match_token where_token rest2)
  done (
    select
        (record { projections = projections; table_name = table_name; where_clause = condition }),
    rest3,
  )

unfoldable pub parse_insert_statement : List Token → Parse Statement
parse_insert_statement tokens = do
  (_, rest) ← consume into_token tokens
  (name, rest2) ← consume identifier_token rest
  (_, rest3) ← consume values_token rest2
  (_, rest4) ← consume left_paren_token rest3
  (values, rest5) ← parse_expression_list rest4
  (_, rest6) ← consume right_paren_token rest5
  done (insert (record { table_name = name.lexeme; values = values }), rest6)

unfoldable pub type_name_of : Token → List Token → Parse TypeName
type_name_of token tokens =
    let type_name = fold_identifier_key token.lexeme in
    if text_eq type_name (codes "int") || text_eq type_name (codes "integer")
    then done (int_name, tokens)
    else if text_eq type_name (codes "text")
    then done (text_name, tokens)
    else if text_eq type_name (codes "bool") || text_eq type_name (codes "boolean")
    then done (bool_name, tokens)
    else parse_error token.range.start

unfoldable pub parse_type_name : List Token → Parse TypeName
parse_type_name tokens = do (token, rest) ← consume identifier_token tokens; type_name_of token rest

unfoldable pub parse_column : List Token → Parse ColumnDefinition
parse_column tokens = do
  (name, rest) ← consume identifier_token tokens
  (type, rest2) ← parse_type_name rest
  done (record { name = name.lexeme; type = type }, rest2)

unfoldable pub parse_create_table_statement : List Token → Parse Statement
parse_create_table_statement tokens = do
  (_, rest) ← consume table_token tokens
  (name, rest2) ← consume identifier_token rest
  (_, rest3) ← consume left_paren_token rest2
  (columns, rest4) ← comma_separated parse_column rest3
  (_, rest5) ← consume right_paren_token rest4
  done (create (record { table_name = name.lexeme; columns = columns }), rest5)

-- The branches of `ParseStatement` at the token that it starts with.
unfoldable pub statement_at : TokenType → Token → List Token → Parse Statement
statement_at select_token token tokens = parse_select_statement tokens
statement_at insert_token token tokens = parse_insert_statement tokens
statement_at create_token token tokens = parse_create_table_statement tokens
statement_at _ token tokens = parse_error token.range.start

abbrev pub after_semicolon : List Token → Option (List Token) → List Token
after_semicolon tokens none = tokens
after_semicolon tokens (some behind) = behind

abbrev pub at_end : Statement → List Token → Parsed Statement
at_end statement tokens =
    if check end_of_file_token tokens then done statement else parse_error (peek tokens).range.start

abbrev pub statement_from : List Token → Parsed Statement
statement_from [] = parse_error (peek []).range.start
statement_from (token ∷ tokens) = do
  (statement, rest) ← statement_at token.type token tokens
  at_end statement (after_semicolon rest (match_token semicolon_token rest))

-- `ParseStatement` of a parser of the tokens.
unfoldable pub parse_statement : List Token → Parsed Statement
parse_statement tokens = statement_from (parser_of tokens)
