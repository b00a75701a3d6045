-- ===== src/Lexer/Located.antt =====
-- `Tokenize` of the lexer: its tokens cover the input in order, with their places.
use mathlib.Core.List.{append-nil}
use matt_sql.Prelude.{
  ℕ, zero, suc, ◌+◌, ◌<◌, ◌≡◌, ◌⊎◌, inl, inr, refl, sym, ap, ◌∙◌, true, List, [], ◌∷◌, ◌++◌, All,
  length, ◌==◌, if◌then◌else◌, arith,
}
use matt_sql.Lexer.{Position, SourceLocation, Token, advance_location, end_of_file_token}
use matt_sql.Lexer.Trivia.{skip_trivia, Skipped, stopped, throws_error}
use matt_sql.Lexer.Scan.{
  scan_token, is_end_of_file, make_token_of, Tokens, tokens, comment_error, add_token,
  tokenize_from, tokenize, start_of,
}
use matt_sql.Lexer.Progress.{
  Moves, Moves-refl, Moves-trans, Moves-le, at, advance_by, advance_by-append, Gap, SkipEnd, stops,
  fails, skip_trivia-SkipEnd,
}
use matt_sql.Lexer.Tokens.{IsScanned, scan_token-IsScanned}

-- Tokens that cover the input from `p` to its end: rounds of `SkipTrivia` lead to each one, each but
-- the last is a text that is not empty, and the last is the end.
pub data Covers : Position → List Token → Type 0 where
  last :
      {p : Position} (q : Position)
      → Moves p q
      → Gap p q
      → q.rest ≡ []
      → Covers p (make_token_of end_of_file_token [] q q ∷ [])
  before :
      {p : Position} (q r : Position) (t : Token) {ts : List Token}
      → Moves p q
      → Gap p q
      → IsScanned q r t
      → Covers r ts
      → Covers p (t ∷ ts)

-- How `Tokenize` ends: with such tokens, or with the exception.
pub data TokenizeEnd (p : Position) : Tokens → Type 0 where
  covered : {ts : List Token} → Covers p ts → TokenizeEnd p (tokens ts)
  thrown : TokenizeEnd p comment_error

add_token-TokenizeEnd :
    (p q r : Position) (t : Token)
    → Moves p q
    → Gap p q
    → IsScanned q r t
    → (rest : Tokens) → TokenizeEnd r rest
    → TokenizeEnd p (add_token t rest)
unfolding add_token
add_token-TokenizeEnd p q r t m e s _ (covered c) = covered (before q r t m e s c)
add_token-TokenizeEnd p q r t m e s _ thrown = thrown

skip_cases :
    {p : Position} (s : Skipped)
    → SkipEnd p s
    → ((q : Position) × (s ≡ stopped q) × Moves p q × Gap p q) ⊎ (s ≡ throws_error)
skip_cases _ (stops q m e) = inl (q, refl, m, e)
skip_cases _ fails = inr refl

-- The token at the end of the input, or one that `ScanToken` scanned.
scan_cases :
    (cs : List ℕ) (l : SourceLocation)
    → ((cs ≡ [])
        × (scan_token (at cs l)
            ≡ (at cs l, make_token_of end_of_file_token [] (at cs l) (at cs l))))
      ⊎ IsScanned (at cs l) (scan_token (at cs l)).0 (scan_token (at cs l)).1
unfolding scan_token
scan_cases [] l = inl (refl, refl)
scan_cases (c ∷ cs) l = inr (scan_token-IsScanned c cs l)

tokenize_from-TokenizeEnd :
    (n : ℕ) (p : Position) → length p.rest < n → TokenizeEnd p (tokenize_from n p)
unfolding tokenize_from
tokenize_from-TokenizeEnd zero p h = absurd (omega arith)
tokenize_from-TokenizeEnd (suc n) p h =
    let skipped = skip_trivia-SkipEnd (suc (length p.rest)) p (omega arith) in
    elim (skip_cases (skip_trivia (suc (length p.rest)) p) skipped) [
      | inr e ↦ rw (tokenize_from, e) thrown
      | inl (q, e, m, stop) ↦ elim (scan_cases q.rest q.location) [
        | inl (none', scanned) ↦
            let done : is_end_of_file (scan_token q).1.type ≡ true =
              ap (λ (s : Position × Token). is_end_of_file s.1.type) scanned in
            rw (tokenize_from, e, done) (rw scanned (covered (last q m stop none')))
        | inr s ↦
            rw (tokenize_from, e, s.no_end)
              (add_token-TokenizeEnd p q (scan_token q).0 (scan_token q).1 m stop s
                (tokenize_from n (scan_token q).0)
                (tokenize_from-TokenizeEnd n (scan_token q).0
                  (omega (arith, Moves-le p q m, s.shorter))))
      ]
    ]

-- `Tokenize` ends, with tokens that cover the whole input in order, or with the exception of an
-- unterminated comment: every token is the text that it stands at, with nothing between two tokens
-- but what `SkipTrivia` skips, and the last one is the end of the input.
pub tokenize-TokenizeEnd : (input : List ℕ) → TokenizeEnd (start_of input) (tokenize input)
unfolding tokenize
tokenize-TokenizeEnd input =
    tokenize_from-TokenizeEnd (suc (length input)) (start_of input) (omega arith)

-- The lexeme of a token is the text of the input at its range, and the range's ends are the
-- locations behind the text before it and behind the lexeme.
pub record IsLocated (input : List ℕ) (t : Token) : Type 0 where
  pub prefix : List ℕ
  pub suffix : List ℕ
  pub split : input ≡ prefix ++ (t.lexeme ++ suffix)
  pub start : t.range.start ≡ advance_by prefix (start_of input).location
  pub end : t.range.end ≡ advance_by (prefix ++ t.lexeme) (start_of input).location

nil-append : (xs : List ℕ) → xs ≡ [] ++ xs
nil-append xs = refl

Covers-IsLocated :
    (input : List ℕ) (p : Position) (ts : List Token)
    → Moves (start_of input) p
    → Covers p ts
    → All (IsLocated input) ts
Covers-IsLocated input p _ m (last q n g e) =
    let k = Moves-trans (start_of input) p q m n in
    (
      record {
        prefix = k.text;
        suffix = q.rest;
        split = k.split ∙ ap (λ x. k.text ++ x) (nil-append q.rest);
        start = k.location;
        end =
            k.location ∙ ap (λ x. advance_by x (start_of input).location) (sym (append-nil k.text));
      },
      tt,
    )
Covers-IsLocated input p _ m (before q r t n e s c) =
    let k = Moves-trans (start_of input) p q m n in
    (
      record {
        prefix = k.text;
        suffix = r.rest;
        split =
            k.split ∙ ap (λ x. k.text ++ x) (s.moves.split ∙ ap (λ x. x ++ r.rest) (sym s.lexeme));
        start = s.start ∙ k.location;
        end =
            s.end
            ∙ s.moves.location
            ∙ ap (advance_by s.moves.text) k.location
            ∙ sym (advance_by-append k.text s.moves.text (start_of input).location)
            ∙ ap (λ x. advance_by (k.text ++ x) (start_of input).location) (sym s.lexeme);
      },
      Covers-IsLocated input r _ (Moves-trans (start_of input) q r k s.moves) c,
    )

TokenizeEnd-Covers :
    (p : Position) (t : Tokens) (ts : List Token) → TokenizeEnd p t → t ≡ tokens ts → Covers p ts
TokenizeEnd-Covers p _ ts (covered {ts = us} c) e = let same : us ≡ ts = cc e in rw same at c
TokenizeEnd-Covers p _ ts thrown e = absurd (cc e)

-- Every token that `Tokenize` returns is the text of the input at its range, and its range gives
-- the line, the column and the offset where that text starts and ends.
pub tokenize-IsLocated :
    (input : List ℕ) {ts : List Token} → tokenize input ≡ tokens ts → All (IsLocated input) ts
tokenize-IsLocated input {ts} h =
    Covers-IsLocated input (start_of input) ts (Moves-refl (start_of input))
      (TokenizeEnd-Covers (start_of input) (tokenize input) ts (tokenize-TokenizeEnd input) h)

abbrev pub count_lines : List ℕ → ℕ
count_lines [] = 0
count_lines (c ∷ text) = let rest = count_lines text in if c == b'\n' then rest + 1 else rest

-- The location behind a text: the offset grows by its length, the line by its line breaks.
pub advance_by_lem :
    (text : List ℕ) (l : SourceLocation)
    → ((advance_by text l).offset ≡ l.offset + length text)
      × ((advance_by text l).line ≡ l.line + count_lines text)
unfolding advance_location
advance_by_lem [] l = (omega arith, omega arith)
advance_by_lem (c ∷ text) l =
    let (offset, line) = advance_by_lem text (advance_location c l) in
    (ground (arith, offset), ground (arith, line))
