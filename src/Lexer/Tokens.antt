-- ===== src/Lexer/Tokens.antt =====
-- `ScanToken` of the lexer: the token is the text that the scan moved over.
use matt_sql.Prelude.{
  ℕ, suc, ◌-◌, ◌<◌, ◌≡◌, inl, inr, refl, ap, ◌∙◌, Bool, true, false, List, [], ◌∷◌, All, length,
  length-append, take, take-append_eq, ◌==◌, if◌then◌else◌, arith, Bool-cases,
}
use matt_sql.Lexer.{
  Position, SourceLocation, Token, TokenType, is_alpha, is_digit, is_alpha_numeric, advance,
  advance_at, advance_location, advance_while, fold_identifier_key, text_eq, keywords, find_keyword,
  lookup_keyword,
}
use matt_sql.Lexer.Scan.{
  slice, make_token, scan_identifier_or_keyword, scan_number, string_body, scan_string, match_char,
  operator_or, less_operator, operator_at, scan_operator_or_punctuation, scan_token, is_end_of_file,
}
use matt_sql.Lexer.Progress.{
  Moves, Moves-refl, Moves-trans, Moves-le, Moves-advance, Moves-advance_while, Moves-step, at,
}

if_holds {ℓ κ} :
    {A : Type ℓ} (P : A → Type κ) (b : Bool) {x y : A} → P x → P y → P (if b then x else y)
if_holds P true h k = h
if_holds P false h k = k

slice-Moves : (p q : Position) (m : Moves p q) → slice p q ≡ m.text
slice-Moves p q m =
    let e = ap length m.split in
    ap (take (length p.rest - length q.rest)) m.split
    ∙ take-append_eq m.text q.rest (omega (arith, e, length-append m.text q.rest))

find_keyword_lem :
    (s : List ℕ) (entries : List (List ℕ × TokenType))
    → All (λ e. is_end_of_file e.1 ≡ false) entries
    → is_end_of_file (find_keyword s entries) ≡ false
unfolding find_keyword
find_keyword_lem s [] h = refl
find_keyword_lem s ((text, type) ∷ entries) h =
    if_holds (λ t. is_end_of_file t ≡ false) (text_eq s text) h.0 (find_keyword_lem s entries h.1)

lookup_keyword_lem : (s : List ℕ) → is_end_of_file (lookup_keyword s) ≡ false
unfolding lookup_keyword
lookup_keyword_lem s = find_keyword_lem (fold_identifier_key s) keywords (ground arith)

-- A token that was scanned from `p` to `q`, which is behind `p`.
pub record IsScanned (p q : Position) (t : Token) : Type 0 where
  pub moves : Moves p q
  pub shorter : length q.rest < length p.rest
  pub lexeme : t.lexeme ≡ moves.text
  pub start : t.range.start ≡ p.location
  pub end : t.range.end ≡ q.location
  pub no_end : is_end_of_file t.type ≡ false

make_token-IsScanned :
    (p q : Position) (type : TokenType)
    → Moves p q
    → length q.rest < length p.rest
    → is_end_of_file type ≡ false
    → IsScanned p q (make_token type p q)
make_token-IsScanned p q type m shorter h = record {
  moves = m;
  shorter = shorter;
  lexeme = slice-Moves p q m;
  start = refl;
  end = refl;
  no_end = h;
}

while_shorter :
    (test : ℕ → Bool) (c : ℕ) (cs : List ℕ) (l : SourceLocation)
    → test c ≡ true
    → length (advance_while test (c ∷ cs) l).rest < suc (length cs)
unfolding advance_while
while_shorter test c cs l h =
    rw h (omega (arith, Moves-le _ _ (Moves-advance_while test cs (advance_location c l))))

Moves-string_body : (cs : List ℕ) (l : SourceLocation) → Moves (at cs l) (string_body cs l).1
unfolding string_body
Moves-string_body [] l = Moves-refl (at [] l)
Moves-string_body (c ∷ []) l = Moves-step c [] l
Moves-string_body (c ∷ d ∷ cs) l =
    let l2 = advance_location d (advance_location c l) in
    let two : Moves (at (c ∷ d ∷ cs) l) (at cs l2) = record {
      text = c ∷ d ∷ [];
      split = refl;
      location = refl;
    } in
    elim (Bool-cases (c == b'\'')) [
      | inl quote ↦ elim (Bool-cases (d == b'\'')) [
        | inl double ↦
            rw (string_body, quote, double)
              (Moves-trans (at (c ∷ d ∷ cs) l) (at cs l2) _ two (Moves-string_body cs l2))
        | inr single ↦ rw (string_body, quote, single) (Moves-step c (d ∷ cs) l)
      ]
      | inr other ↦
          rw (string_body, other)
            (Moves-trans (at (c ∷ d ∷ cs) l) (at (d ∷ cs) (advance_location c l)) _
              (Moves-step c (d ∷ cs) l) (Moves-string_body (d ∷ cs) (advance_location c l)))
    ]

match_at : (e : ℕ) (cs : List ℕ) (l : SourceLocation) → Moves (at cs l) (match_char e (at cs l)).1
match_at e [] l = Moves-refl (at [] l)
match_at e (c ∷ cs) l =
    if_holds (λ (r : Bool × Position). Moves (at (c ∷ cs) l) r.1) (c == e)
      (Moves-advance (at (c ∷ cs) l)) (Moves-refl (at (c ∷ cs) l))

Moves-match_char : (e : ℕ) (p : Position) → Moves p (match_char e p).1
Moves-match_char e p = match_at e p.rest p.location

-- The position behind an operator, and that it is no end of the input.
abbrev OperatorEnd : Position → TokenType × Position → Type 0
OperatorEnd p (type, q) = Moves p q × (is_end_of_file type ≡ false)

operator_or_lem :
    (e : ℕ) (long short : TokenType) (p : Position)
    → is_end_of_file long ≡ false
    → is_end_of_file short ≡ false
    → OperatorEnd p (operator_or e long short p)
unfolding operator_or
operator_or_lem e long short p h k =
    (Moves-match_char e p, if_holds (λ t. is_end_of_file t ≡ false) (match_char e p).0 h k)

less_operator_lem : (p : Position) → OperatorEnd p (less_operator p)
unfolding less_operator
less_operator_lem p =
    if_holds (OperatorEnd p) (match_char b'=' p).0 (Moves-match_char b'=' p, refl)
      (operator_or_lem b'>' _ _ p refl refl)

operator_at_lem : (c : ℕ) (p : Position) → OperatorEnd p (operator_at c p)
unfolding operator_at
operator_at_lem c p =
    let here : Moves p p = Moves-refl p in
    let P = OperatorEnd p in
    if_holds P (c == b'+') (here, refl)
      (if_holds P (c == b'-') (here, refl)
        (if_holds P (c == b'*') (here, refl)
          (if_holds P (c == b'/') (here, refl)
            (if_holds P (c == b'=') (here, refl)
              (if_holds P (c == b'!') (operator_or_lem b'=' _ _ p refl refl) (
                if_holds P (c == b'<') (less_operator_lem p) (
                  if_holds P (c == b'>') (operator_or_lem b'=' _ _ p refl refl) (
                    if_holds P (c == b'(') (here, refl)
                      (if_holds P (c == b')') (here, refl)
                        (if_holds P (c == b',') (here, refl)
                          (if_holds P (c == b'.') (here, refl)
                            (if_holds P (c == b';') (here, refl) (here, refl)))))))))))))

string_lem :
    (c : ℕ) (cs : List ℕ) (l : SourceLocation)
    → IsScanned (at (c ∷ cs) l) (scan_string (at (c ∷ cs) l)).0 (scan_string (at (c ∷ cs) l)).1
unfolding scan_string advance advance_at
string_lem c cs l =
    let p = at (c ∷ cs) l in
    let opened = at cs (advance_location c l) in
    let body = Moves-string_body cs (advance_location c l) in
    make_token-IsScanned p (string_body cs (advance_location c l)).1 _
      (Moves-trans p opened _ (Moves-step c cs l) body) (omega (arith, Moves-le opened _ body))
      (if_holds (λ t. is_end_of_file t ≡ false) (string_body cs (advance_location c l)).0 refl refl)

operator_lem :
    (c : ℕ) (cs : List ℕ) (l : SourceLocation)
    → IsScanned
        (at (c ∷ cs) l)
        (scan_operator_or_punctuation (at (c ∷ cs) l)).0
        (scan_operator_or_punctuation (at (c ∷ cs) l)).1
unfolding scan_operator_or_punctuation advance advance_at
operator_lem c cs l =
    let p = at (c ∷ cs) l in
    let behind = at cs (advance_location c l) in
    let (m, no_end) = operator_at_lem c behind in
    make_token-IsScanned p (operator_at c behind).1 _ (Moves-trans p behind _ (Moves-step c cs l) m)
      (omega (arith, Moves-le behind _ m)) no_end

-- `ScanToken` before the end of the input scans a token that is not empty.
pub scan_token-IsScanned :
    (c : ℕ) (cs : List ℕ) (l : SourceLocation)
    → IsScanned (at (c ∷ cs) l) (scan_token (at (c ∷ cs) l)).0 (scan_token (at (c ∷ cs) l)).1
unfolding scan_token scan_identifier_or_keyword scan_number
scan_token-IsScanned c cs l =
    let p = at (c ∷ cs) l in
    elim (Bool-cases (is_alpha c)) [
      | inl letter ↦ rw letter (
          make_token-IsScanned p (advance_while is_alpha_numeric (c ∷ cs) l) _
            (Moves-advance_while is_alpha_numeric (c ∷ cs) l)
            (while_shorter is_alpha_numeric c cs l (rw letter refl)) (lookup_keyword_lem _))
      | inr other ↦ elim (Bool-cases (is_digit c)) [
        | inl digit ↦
            rw (other, digit)
              (make_token-IsScanned p (advance_while is_digit (c ∷ cs) l) _
                (Moves-advance_while is_digit (c ∷ cs) l) (while_shorter is_digit c cs l digit)
                refl)
        | inr other' ↦ elim (Bool-cases (c == b'\'')) [
          | inl quote ↦ rw (other, other', quote) (string_lem c cs l)
          | inr other'' ↦ rw (other, other', other'') (operator_lem c cs l)
        ]
      ]
    ]
