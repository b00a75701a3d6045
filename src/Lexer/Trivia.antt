-- ===== src/Lexer/Trivia.antt =====
-- `Lexer::SkipTrivia` of src/lexer/lexer.cpp: whitespace and comments.
use matt_sql.Prelude.{
  ℕ, zero, suc, Bool, not, ◌&&◌, Option, none, some, List, [], ◌∷◌, ◌==◌, if◌then◌else◌,
}
use matt_sql.Lexer.{
  Position, SourceLocation, is_space, peek, advance, advance_location, advance_while,
}

abbrev pub in_line : ℕ → Bool
in_line c = not (c == b'\n') && not (c == b'\r')

-- The body of a block comment up to its end; `none` where the comment has no end.
unfoldable pub skip_block : List ℕ → SourceLocation → Option Position
skip_block [] location = none
skip_block (c ∷ cs) location =
    let location' = advance_location c location in
    let rest = skip_block cs location' in
    if c == b'*' && peek cs == b'/'
    then some (advance (record { rest = cs; location = location' }))
    else rest

-- One round of the loop: what it skips, the return, or the exception.
pub data TriviaRound : Type 0 where
  skips : Position → TriviaRound
  returns throws : TriviaRound

unfoldable pub skip_block_comment : Option Position → TriviaRound
skip_block_comment none = throws
skip_block_comment (some position) = skips position

unfoldable pub trivia_round : Position → TriviaRound
unfolding skip_block_comment
trivia_round position = elim position.rest [
  | [] ↦ returns
  | c ∷ cs ↦
      let inside = advance (advance position) in
      if is_space c
      then skips (advance position)
      else if c == b'-' && peek cs == b'-'
      then skips (advance_while in_line inside.rest inside.location)
      else if c == b'/' && peek cs == b'*'
      then skip_block_comment (skip_block inside.rest inside.location)
      else returns
]

-- `throws_error` is the exception of an unterminated block comment, and `unfinished` is no result
-- of the program: the rounds were used up.
pub data Skipped : Type 0 where
  stopped : Position → Skipped
  throws_error unfinished : Skipped

unfoldable pub skip_trivia : ℕ → Position → Skipped
skip_trivia zero position = unfinished
skip_trivia (suc rounds) position = elim (trivia_round position) [
  | skips position' ↦ skip_trivia rounds position'
  | returns ↦ stopped position
  | throws ↦ throws_error
]
