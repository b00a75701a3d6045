-- ===== src/Parser/Literals.antt =====
-- src/parser/parser.cpp: the values of literals, and `std::stoll` of the standard library, which they
-- use.
use mathlib.Core.Option
use matt_sql.Prelude.{
  ℕ, ◌+◌, ◌-◌, ◌*◌, ◌^◌, ◌==◌, ltb, leb, Bool, true, false, ◌&&◌, if◌then◌else◌, Option, none, some,
  List, [], ◌∷◌,
}
use matt_sql.Prelude.Int.{ℤ, pos, negsuc}
use matt_sql.Lexer.{is_space, is_digit}

-- `lexeme` less its last character, if that is a quote.
abbrev pub before_quote : List ℕ → Option (List ℕ)
before_quote [] = none
before_quote (c ∷ []) = if c == b'\'' then some [] else none
before_quote (c ∷ d ∷ cs) = Option.map (λ text. c ∷ text) (before_quote (d ∷ cs))

-- The loop of `unescape_sql_string`, over the text between the quotes.
abbrev pub unescaped : List ℕ → List ℕ
unescaped [] = []
unescaped (c ∷ []) = c ∷ []
unescaped (c ∷ d ∷ cs) = elim (c == b'\'' && d == b'\'') [
  | true ↦ b'\'' ∷ unescaped cs
  | false ↦ c ∷ unescaped (d ∷ cs)
]

-- None stands for the exception.
unfoldable pub unescape_sql_string : List ℕ → Option (List ℕ)
unescape_sql_string [] = none
unescape_sql_string (c ∷ cs) = if c == b'\'' then Option.map unescaped (before_quote cs) else none

abbrev pub skip_spaces : List ℕ → List ℕ
skip_spaces [] = []
skip_spaces (c ∷ cs) = let rest = skip_spaces cs in if is_space c then rest else c ∷ cs

-- The number that the digits at the front make, behind those that make `n`.
abbrev pub digits_from : ℕ → List ℕ → ℕ
digits_from n [] = n
digits_from n (c ∷ cs) =
    let more = digits_from (n * 10 + (c - b'0')) cs in if is_digit c then more else n

abbrev pub starts_with_digit : List ℕ → Bool
starts_with_digit [] = false
starts_with_digit (c ∷ cs) = is_digit c

abbrev pub positive : ℕ → Option ℤ
positive n = if ltb n (2 ^ 63) then some (pos n) else none

abbrev pub negative : ℕ → Option ℤ
negative n = if n == 0 then some (pos 0) else if leb n (2 ^ 63) then some (negsuc (n - 1)) else none

abbrev pub number : (ℕ → Option ℤ) → List ℕ → Option ℤ
number signed text = if starts_with_digit text then signed (digits_from 0 text) else none

abbrev pub signed_number : List ℕ → Option ℤ
signed_number [] = none
signed_number (c ∷ cs) =
    if c == b'-'
    then number negative cs
    else if c == b'+'
    then number positive cs
    else number positive (c ∷ cs)

-- None stands for `invalid_argument` and `out_of_range`.
unfoldable pub stoll : List ℕ → Option ℤ
stoll text = signed_number (skip_spaces text)
