-- ===== src/Parser/Statements/Ending.antt =====
-- The end of `ParseStatement`.
use matt_sql.Prelude.{
  ℕ, zero, suc, ◌<◌, ◌≤◌, refl, ◌||◌, Bool-cases, inl, inr, Option, none, some, List, [], ◌∷◌,
  length, arith,
}
use matt_sql.Lexer.{
  TokenType, end_of_file_token, select_token, insert_token, into_token, values_token, create_token,
  table_token, as_token, identifier_token, left_paren_token, right_paren_token, comma_token,
  semicolon_token, Token, codes, text_eq, fold_identifier_key,
}
use matt_sql.Parser.Ast.{Statement, select, insert, create}
use matt_sql.Parser.Tokens.{Parse, check, match_token, parser_of}
use matt_sql.Parser.Endings.{
  Ends, returns, throws, Leaves, ◌⟫◌, weaken, consume-Ends, Matched, matched, match_token_ends,
}
use matt_sql.Parser.Expressions.{parse_expression}
use matt_sql.Parser.Expressions.Ending.{AnyValue, parse_expression-Ends}
use matt_sql.Parser.Statements.{
  after_item, separated, comma_separated, parse_alias, parse_projection, parse_from, parse_where,
  parse_select_statement, parse_insert_statement, type_name_of, parse_type_name, parse_column,
  parse_create_table_statement, statement_at, after_semicolon, at_end, statement_from,
  parse_statement,
}

-- At least one item, and less than `n` tokens are left.
abbrev Some : {A : Type 0} → ℕ → List A × List Token → Type 0
Some n r = (0 < length r.0) × (length r.1 < n)

-- The lists of a statement are not empty.
unfoldable pub HasItems : Statement → Type 0
HasItems (select s) = 0 < length s.projections
HasItems (insert s) = 0 < length s.values
HasItems (create s) = 0 < length s.columns

weaken-Some :
    {A : Type 0} {n m : ℕ} {r : Parse (List A)} → n ≤ m → Ends (Some n) r → Ends (Some m) r
weaken-Some le (returns (items, h)) = returns (items, omega (arith, le, h))
weaken-Some le (throws location) = throws location

module _ {A : Type 0} (item : List Token → Parse A)
    (item_ends : (tokens : List Token) → Ends (Leaves (length tokens)) (item tokens)) where
  after_item-Ends :
      (value : A) (tokens : List Token) (behind : Option (List Token))
      (again : List Token → Parse (List A))
      → Matched (length tokens) behind
      → ((rest : List Token) → length rest < length tokens → Ends (Some (length rest)) (again rest))
      → Ends (Some (suc (length tokens))) (after_item item value tokens behind again)
  unfolding after_item
  after_item-Ends value tokens none again m h = returns (omega arith, omega arith)
  after_item-Ends value tokens (some behind) again (matched small) h =
      h behind small ⟫ λ (values, rest) (_, smaller).
      returns (omega arith, omega (arith, small, smaller))

  separated-Ends :
      (n : ℕ) (tokens : List Token)
      → length tokens < n
      → Ends (Some (length tokens)) (separated item n tokens)
  unfolding separated
  separated-Ends zero tokens h = absurd (omega (arith, h))
  separated-Ends (suc n) tokens h = item_ends tokens ⟫ λ (value, rest) small. weaken-Some small (
      after_item-Ends value rest _ _ (match_token_ends comma_token rest)
        (λ behind smaller. separated-Ends n behind (omega (arith, h, small, smaller))))

  comma_separated-Ends :
      (tokens : List Token) → Ends (Some (length tokens)) (comma_separated item tokens)
  unfolding comma_separated
  comma_separated-Ends tokens = separated-Ends (suc (length tokens)) tokens (omega arith)

any_value : {A : Type 0} {n : ℕ} {r : Parse A} → Ends (Leaves n) r → Ends AnyValue r
any_value (returns h) = returns refl
any_value (throws location) = throws location

alias-Ends :
    (tokens : List Token) (behind : Option (List Token))
    → Matched (length tokens) behind
    → Ends (Leaves (suc (length tokens))) (parse_alias tokens behind)
unfolding parse_alias
alias-Ends tokens none m = returns (omega arith)
alias-Ends tokens (some behind) (matched small) =
    consume-Ends identifier_token behind ⟫ λ (name, rest) smaller.
    returns (omega (arith, small, smaller))

projection-Ends : (tokens : List Token) → Ends (Leaves (length tokens)) (parse_projection tokens)
unfolding parse_projection
projection-Ends tokens = parse_expression-Ends tokens ⟫ λ (expression, rest) small.
    alias-Ends rest _ (match_token_ends as_token rest) ⟫ λ (alias, rest2) smaller.
    returns (omega (arith, small, smaller))

from_Ends :
    (tokens : List Token) (behind : Option (List Token)) → Ends AnyValue (parse_from tokens behind)
unfolding parse_from
from_Ends tokens none = returns refl
from_Ends tokens (some behind) = consume-Ends identifier_token behind ⟫ λ r _. returns refl

where-Ends :
    (tokens : List Token) (behind : Option (List Token)) → Ends AnyValue (parse_where tokens behind)
unfolding parse_where
where-Ends tokens none = returns refl
where-Ends tokens (some behind) = any_value (parse_expression-Ends behind)

type_name_of-Ends :
    (token : Token) (tokens : List Token)
    → Ends (Leaves (suc (length tokens))) (type_name_of token tokens)
unfolding type_name_of
type_name_of-Ends token tokens =
    let name = fold_identifier_key token.lexeme in
    elim (Bool-cases (text_eq name (codes "int") || text_eq name (codes "integer"))) [
      | inl int ↦ rw int (returns (omega arith))
      | inr no_int ↦ elim (Bool-cases (text_eq name (codes "text"))) [
        | inl text ↦ rw (no_int, text) (returns (omega arith))
        | inr no_text ↦
            elim (Bool-cases (text_eq name (codes "bool") || text_eq name (codes "boolean"))) [
              | inl bool ↦ rw (no_int, no_text, bool) (returns (omega arith))
              | inr no_bool ↦ rw (no_int, no_text, no_bool) (throws _)
            ]
      ]
    ]

column-Ends : (tokens : List Token) → Ends (Leaves (length tokens)) (parse_column tokens)
unfolding parse_column parse_type_name
column-Ends tokens = consume-Ends identifier_token tokens ⟫ λ (name, rest) small.
    (consume-Ends identifier_token rest ⟫ λ (token, rest2) smaller.
    weaken (omega (arith, small, smaller)) (type_name_of-Ends token rest2))
    ⟫ λ (type, rest3) least. returns least

select-Ends : (tokens : List Token) → Ends (λ r. HasItems r.0) (parse_select_statement tokens)
unfolding parse_select_statement HasItems
select-Ends tokens =
    comma_separated-Ends parse_projection projection-Ends tokens ⟫ λ (projections, rest) (items, _).
    from_Ends rest _ ⟫ λ (name, rest2) _. where-Ends rest2 _ ⟫ λ (condition, rest3) _. returns items

insert-Ends : (tokens : List Token) → Ends (λ r. HasItems r.0) (parse_insert_statement tokens)
unfolding parse_insert_statement HasItems
insert-Ends tokens = consume-Ends into_token tokens ⟫ λ (_, rest) _.
    consume-Ends identifier_token rest ⟫ λ (name, rest2) _.
    consume-Ends values_token rest2 ⟫ λ (_, rest3) _.
    consume-Ends left_paren_token rest3 ⟫ λ (_, rest4) _.
    comma_separated-Ends parse_expression parse_expression-Ends rest4
    ⟫ λ (values, rest5) (items, _).
        consume-Ends right_paren_token rest5 ⟫ λ (_, rest6) _. returns items

create-Ends : (tokens : List Token) → Ends (λ r. HasItems r.0) (parse_create_table_statement tokens)
unfolding parse_create_table_statement HasItems
create-Ends tokens = consume-Ends table_token tokens ⟫ λ (_, rest) _.
    consume-Ends identifier_token rest ⟫ λ (name, rest2) _.
    consume-Ends left_paren_token rest2 ⟫ λ (_, rest3) _.
    comma_separated-Ends parse_column column-Ends rest3 ⟫ λ (columns, rest4) (items, _).
    consume-Ends right_paren_token rest4 ⟫ λ (_, rest5) _. returns items

statement_at-Ends :
    (type : TokenType) (token : Token) (tokens : List Token)
    → Ends (λ r. HasItems r.0) (statement_at type token tokens)
unfolding statement_at
statement_at-Ends select_token token tokens = select-Ends tokens
statement_at-Ends insert_token token tokens = insert-Ends tokens
statement_at-Ends create_token token tokens = create-Ends tokens
statement_at-Ends _ token tokens = throws _

at_end-Ends :
    (statement : Statement) (tokens : List Token)
    → HasItems statement
    → Ends HasItems (at_end statement tokens)
at_end-Ends statement tokens items = elim (Bool-cases (check end_of_file_token tokens)) [
  | inl end ↦ rw end (returns items)
  | inr more ↦ rw more (throws _)
]

statement_from-Ends : (tokens : List Token) → Ends HasItems (statement_from tokens)
statement_from-Ends [] = throws _
statement_from-Ends (token ∷ tokens) =
    statement_at-Ends token.type token tokens ⟫ λ (statement, rest) items.
    at_end-Ends statement (after_semicolon rest (match_token semicolon_token rest)) items

-- Of any tokens, `ParseStatement` returns a statement whose list of projections, values or columns is
-- not empty, or throws a `ParseError`: a number of nested calls and of rounds that is above the number
-- of tokens is enough, and no operator's token lacks its conversion.
pub parse_statement-Ends : (tokens : List Token) → Ends HasItems (parse_statement tokens)
unfolding parse_statement
parse_statement-Ends tokens = statement_from-Ends (parser_of tokens)
