-- ===== src/Parser/Expressions/Ending.antt =====
-- The end of `ParseExpression`: the fuel is enough, and no operator lacks its conversion.
use matt_sql.Prelude.{
  ℕ, zero, suc, ◌+◌, ◌≤◌, ◌<◌, ◌≡◌, refl, Bool, true, false, leb, ltb, Option, none, some, List, [],
  ◌∷◌, ◌++◌, length, Bool-cases, Option-cases, inl, inr, arith,
}
use matt_sql.Prelude.Int.{ℤ}
use matt_sql.Lexer.{
  TokenType, or_token, and_token, equal_token, not_equal_token, less_token, less_equal_token,
  greater_token, greater_equal_token, slash_token, codes, integer_token, string_token, true_token,
  false_token, null_token, star_token, identifier_token, left_paren_token, right_paren_token,
  dot_token, plus_token, minus_token, Token,
}
use matt_sql.Parser.Ast.{ExpressionPtr}
use matt_sql.Parser.Tokens.{Parse, check}
use matt_sql.Parser.Endings.{Ends, returns, throws, Leaves, ◌⟫◌, weaken, consume-Ends}
use matt_sql.Parser.Expressions.{
  binary_precedence, token_to_binary_operator, token_to_unary_operator, is_sign, is_least,
  not_precedence, parse_dotted, integer_of, string_of, primary_at, parse_primary_expression,
  signed_at, prefix_at, parse_prefix_expression, operation_at, operators_at, parse_operators,
  expression_at, parse_expression_in, parse_expression,
}

abbrev pub AnyValue : {A : Type 0} → A → Type 0
AnyValue a = a ≡ a

unary-Ends : (type : TokenType) → is_sign type ≡ true → Ends AnyValue (token_to_unary_operator type)
unary-Ends plus_token h = returns refl
unary-Ends minus_token h = returns refl
unary-Ends _ h = absurd (cc h)

binary-Ends :
    (type : TokenType) {p : ℕ}
    → binary_precedence type ≡ some p
    → Ends AnyValue (token_to_binary_operator type)
binary-Ends or_token h = returns refl
binary-Ends and_token h = returns refl
binary-Ends equal_token h = returns refl
binary-Ends not_equal_token h = returns refl
binary-Ends less_token h = returns refl
binary-Ends less_equal_token h = returns refl
binary-Ends greater_token h = returns refl
binary-Ends greater_equal_token h = returns refl
binary-Ends plus_token h = returns refl
binary-Ends minus_token h = returns refl
binary-Ends star_token h = returns refl
binary-Ends slash_token h = returns refl
binary-Ends _ h = absurd (cc h)

integer-Ends :
    (token : Token) (tokens : List Token) (value : Option ℤ)
    → Ends (Leaves (suc (length tokens))) (integer_of token tokens value)
integer-Ends token tokens none = throws _
integer-Ends token tokens (some value) = returns (omega arith)

string-Ends :
    (token : Token) (tokens : List Token) (value : Option (List ℕ))
    → Ends (Leaves (suc (length tokens))) (string_of token tokens value)
string-Ends token tokens none = throws _
string-Ends token tokens (some value) = returns (omega arith)

dotted-Ends :
    (name : List ℕ) (tokens : List Token)
    → Ends (Leaves (suc (length tokens))) (parse_dotted name tokens)
unfolding parse_dotted
dotted-Ends name [] = returns (omega arith)
dotted-Ends name (token ∷ []) = elim (Bool-cases (check dot_token (token ∷ []))) [
  | inl dot ↦ rw dot (throws _)
  | inr other ↦ rw other (returns (omega arith))
]
dotted-Ends name (token ∷ part ∷ tokens) = elim (Bool-cases (check dot_token (token ∷ []))) [
  | inr other ↦ rw other (returns (omega arith))
  | inl dot ↦ elim (Bool-cases (check identifier_token (part ∷ []))) [
    | inr wrong ↦ rw (dot, wrong) (throws _)
    | inl right ↦
        rw (dot, right)
          (weaken (omega arith) (dotted-Ends (name ++ codes "." ++ part.lexeme) tokens))
  ]
]

-- What is asked of the calls of `ParseExpression` that a call makes: on fewer than `n` tokens.
abbrev pub EndsBelow : ℕ → (ℕ → List Token → Parse ExpressionPtr) → Type 0
EndsBelow n parse =
    (min_precedence : ℕ) (tokens : List Token)
    → length tokens < n
    → Ends (Leaves (length tokens)) (parse min_precedence tokens)

module _ (parse : ℕ → List Token → Parse ExpressionPtr) (n : ℕ) (below : EndsBelow n parse) where
  primary_at-Ends :
      (type : TokenType) (token : Token) (tokens : List Token)
      → length tokens < n
      → Ends (Leaves (suc (length tokens))) (primary_at parse type token tokens)
  unfolding primary_at
  primary_at-Ends integer_token token tokens h = integer-Ends token tokens _
  primary_at-Ends string_token token tokens h = string-Ends token tokens _
  primary_at-Ends true_token token tokens h = returns (omega arith)
  primary_at-Ends false_token token tokens h = returns (omega arith)
  primary_at-Ends null_token token tokens h = returns (omega arith)
  primary_at-Ends star_token token tokens h = returns (omega arith)
  primary_at-Ends identifier_token token tokens h = dotted-Ends token.lexeme tokens
  primary_at-Ends left_paren_token token tokens h = below 0 tokens h ⟫ λ (expression, rest) small.
      consume-Ends right_paren_token rest ⟫ λ (_, rest2) smaller.
      returns (omega (arith, small, smaller))
  primary_at-Ends _ token tokens h = throws _

  primary-Ends :
      (tokens : List Token)
      → length tokens ≤ n
      → Ends (Leaves (length tokens)) (parse_primary_expression parse tokens)
  unfolding parse_primary_expression primary_at
  primary-Ends [] h = throws _
  primary-Ends (token ∷ tokens) h = primary_at-Ends token.type token tokens h

  signed-Ends :
      (least : Bool) (type : TokenType) (tokens : List Token) (again : Bool → Parse ExpressionPtr)
      → is_sign type ≡ true
      → Ends (Leaves (length tokens)) (again true)
      → Ends (Leaves (suc (length tokens))) (signed_at parse least type tokens again)
  unfolding signed_at
  signed-Ends true type [] again h operand = returns (omega arith)
  signed-Ends true type (token ∷ tokens) again h operand = returns (omega arith)
  signed-Ends false type tokens again h operand = unary-Ends type h ⟫ λ operator _.
      operand ⟫ λ (operand, rest) small. returns (omega (arith, small))

  prefix-Ends :
      (tokens : List Token)
      → length tokens ≤ n
      → Ends (Leaves (length tokens)) (parse_prefix_expression parse tokens)
  unfolding parse_prefix_expression prefix_at
  prefix-Ends [] h = primary-Ends [] h
  prefix-Ends (token ∷ tokens) h = elim (Bool-cases (is_sign token.type)) [
    | inl sign ↦ rw sign (
        signed-Ends (is_least token.type tokens) token.type tokens _ sign
          (prefix-Ends tokens (omega (arith, h))))
    | inr other ↦ rw other (primary-Ends (token ∷ tokens) h)
  ]

  operators-Ends :
      (k min_precedence : ℕ) (left : ExpressionPtr) (tokens : List Token)
      → length tokens < k
      → length tokens ≤ n
      → Ends (Leaves (suc (length tokens))) (parse_operators parse k min_precedence left tokens)
  unfolding parse_operators operators_at operation_at
  operators-Ends zero min_precedence left tokens enough h = absurd (omega (arith, enough))
  operators-Ends (suc k) min_precedence left [] enough h = returns (omega arith)
  operators-Ends (suc k) min_precedence left (token ∷ tokens) enough h =
      elim (Option-cases (binary_precedence token.type)) [
        | inl other ↦ rw other (returns (omega arith))
        | inr (p, binary) ↦ elim (Bool-cases (ltb p min_precedence)) [
          | inl low ↦ rw (binary, low) (returns (omega arith))
          | inr high ↦
              rw (binary, high)
                (below (p + 1) tokens (omega (arith, h)) ⟫ λ (right, rest) small.
                  binary-Ends token.type binary ⟫ λ operator _. weaken (omega (arith, small)) (
                    operators-Ends k min_precedence _ rest (omega (arith, enough, small))
                      (omega (arith, h, small))))
        ]
      ]

  expression-Ends :
      (min_precedence : ℕ) (negated : Bool) (token : Token) (tokens : List Token)
      → length tokens < n
      → Ends
          (Leaves (suc (length tokens)))
          (expression_at parse n min_precedence negated (token ∷ tokens))
  unfolding expression_at
  expression-Ends min_precedence true token tokens h =
      below not_precedence tokens h ⟫ λ (operand, rest) small. returns (omega (arith, small))
  expression-Ends min_precedence false token tokens h =
      prefix-Ends (token ∷ tokens) h ⟫ λ (left, rest) small. weaken small (
        operators-Ends n min_precedence left rest (omega (arith, h, small))
          (omega (arith, h, small)))

pub parse_expression_in_ends : (n : ℕ) → EndsBelow n (parse_expression_in n)
unfolding parse_expression_in expression_at parse_prefix_expression parse_primary_expression
    primary_at
parse_expression_in_ends zero min_precedence tokens h = absurd (omega (arith, h))
parse_expression_in_ends (suc n) min_precedence [] h =
    elim (Bool-cases (leb min_precedence not_precedence)) [
      | inl low ↦ rw low (throws _)
      | inr high ↦ rw high (throws _)
    ]
parse_expression_in_ends (suc n) min_precedence (token ∷ tokens) h =
    expression-Ends (parse_expression_in n) n (parse_expression_in_ends n) min_precedence _ token
      tokens (omega (arith, h))

pub parse_expression-Ends :
    (tokens : List Token) → Ends (Leaves (length tokens)) (parse_expression tokens)
unfolding parse_expression
parse_expression-Ends tokens = parse_expression_in_ends (suc (length tokens)) 0 tokens (omega arith)
