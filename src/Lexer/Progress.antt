-- ===== src/Lexer/Progress.antt =====
-- The lexer's scans move the cursor forward over characters of the input, and its loops end.
use mathlib.Core.List.{append_assoc}
use matt_sql.Prelude.{
  ℕ, zero, suc, ◌≤◌, ◌<◌, ◌≡◌, ◌⊎◌, inl, inr, refl, sym, ap, ◌∙◌, Bool, ◌&&◌, some, List, [], ◌∷◌,
  ◌++◌, length, length-append, ◌==◌, arith, Bool-cases, Option-cases,
}
use matt_sql.Lexer.{
  Position, SourceLocation, is_space, peek, advance, advance_at, advance_location, advance_while,
}
use matt_sql.Lexer.Trivia.{
  in_line, skip_block, skip_block_comment, trivia_round, TriviaRound, skips, returns, throws,
  skip_trivia, Skipped, stopped, throws_error,
}

-- The location behind a text.
abbrev pub advance_by : List ℕ → SourceLocation → SourceLocation
advance_by [] location = location
advance_by (c ∷ text) location = advance_by text (advance_location c location)

pub advance_by-append :
    (s t : List ℕ) (l : SourceLocation) → advance_by (s ++ t) l ≡ advance_by t (advance_by s l)
advance_by-append [] t l = refl
advance_by-append (c ∷ s) t l = advance_by-append s t (advance_location c l)

-- The cursor moved from `p` to `q` over the characters of `text`.
pub record Moves (p q : Position) : Type 0 where
  pub text : List ℕ
  pub split : p.rest ≡ text ++ q.rest
  pub location : q.location ≡ advance_by text p.location

pub Moves-refl : (p : Position) → Moves p p
Moves-refl p = record { text = []; split = refl; location = refl }

pub Moves-trans : (p q r : Position) → Moves p q → Moves q r → Moves p r
Moves-trans p q r m n = record {
  text = m.text ++ n.text;
  split = m.split ∙ ap (λ t. m.text ++ t) n.split ∙ sym (append_assoc m.text n.text r.rest);
  location =
      n.location
      ∙ ap (advance_by n.text) m.location
      ∙ sym (advance_by-append m.text n.text p.location);
}

pub Moves-le : (p q : Position) → Moves p q → length q.rest ≤ length p.rest
Moves-le p q m = let e = ap length m.split in omega (arith, e, length-append m.text q.rest)

abbrev pub at : List ℕ → SourceLocation → Position
at rest location = record { rest = rest; location = location }

pub Moves-step :
    (c : ℕ) (cs : List ℕ) (l : SourceLocation)
    → Moves (at (c ∷ cs) l) (at cs (advance_location c l))
Moves-step c cs l = record { text = c ∷ []; split = refl; location = refl }

Moves-advance_at : (cs : List ℕ) (l : SourceLocation) → Moves (at cs l) (advance_at cs l)
unfolding advance_at
Moves-advance_at [] l = Moves-refl (at [] l)
Moves-advance_at (c ∷ cs) l = Moves-step c cs l

pub Moves-advance : (p : Position) → Moves p (advance p)
unfolding advance
Moves-advance p = Moves-advance_at p.rest p.location

pub Moves-advance_while :
    (test : ℕ → Bool) (cs : List ℕ) (l : SourceLocation) → Moves (at cs l) (advance_while test cs l)
unfolding advance_while
Moves-advance_while test [] l = Moves-refl (at [] l)
Moves-advance_while test (c ∷ cs) l = elim (Bool-cases (test c)) [
  | inl more ↦ rw more (
      Moves-trans (at (c ∷ cs) l) (at cs (advance_location c l)) _ (Moves-step c cs l)
        (Moves-advance_while test cs (advance_location c l)))
  | inr stop ↦ rw stop (Moves-refl (at (c ∷ cs) l))
]

Moves-skip_block :
    (cs : List ℕ) (l : SourceLocation) {q : Position} → skip_block cs l ≡ some q → Moves (at cs l) q
unfolding skip_block
Moves-skip_block [] l h = absurd (cc h)
Moves-skip_block (c ∷ cs) l {q} h = elim (Bool-cases (c == b'*' && peek cs == b'/')) [
  | inl closed ↦
      let same : advance (at cs (advance_location c l)) ≡ q = cc (rw closed at h) in
      Moves-trans (at (c ∷ cs) l) (at cs (advance_location c l)) q (Moves-step c cs l)
        (rw same at (Moves-advance (at cs (advance_location c l))))
  | inr more ↦
      Moves-trans (at (c ∷ cs) l) (at cs (advance_location c l)) q (Moves-step c cs l)
        (Moves-skip_block cs (advance_location c l) (rw more at h))
]

advance_shrinks :
    (c : ℕ) (cs : List ℕ) (l : SourceLocation)
    → length (advance (at (c ∷ cs) l)).rest < suc (length cs)
unfolding advance advance_at
advance_shrinks c cs l = omega arith

-- Two calls of `Advance` on a character, and a move.
Moves-two :
    (c : ℕ) (cs : List ℕ) (l : SourceLocation) (q : Position)
    → Moves (advance (advance (at (c ∷ cs) l))) q
    → Moves (at (c ∷ cs) l) q × (length q.rest < suc (length cs))
unfolding advance advance_at
Moves-two c cs l q m =
    let first = at cs (advance_location c l) in
    let behind = Moves-trans first (advance first) q (Moves-advance first) m in
    (
      Moves-trans (at (c ∷ cs) l) first q (Moves-step c cs l) behind,
      omega (arith, Moves-le first q behind),
    )

block_lem :
    (p : Position) {q : Position}
    → skip_block_comment (skip_block p.rest p.location) ≡ skips q
    → Moves p q
unfolding skip_block_comment
block_lem p {q} h = elim (Option-cases (skip_block p.rest p.location)) [
  | inl none' ↦ absurd (cc (rw none' at h))
  | inr (r, some') ↦
      let same : r ≡ q = cc (rw some' at h) in rw same at (Moves-skip_block p.rest p.location some')
]

round_lem :
    (cs : List ℕ) (l : SourceLocation) {q : Position}
    → trivia_round (at cs l) ≡ skips q
    → Moves (at cs l) q × (length q.rest < length cs)
unfolding trivia_round
round_lem [] l h = absurd (cc h)
round_lem (c ∷ cs) l {q} h =
    let inside = advance (advance (at (c ∷ cs) l)) in
    elim (Bool-cases (is_space c)) [
      | inl space ↦
          let same : advance (at (c ∷ cs) l) ≡ q = cc (rw space at h) in
          (rw same at (Moves-advance (at (c ∷ cs) l)), rw same at (advance_shrinks c cs l))
      | inr other ↦ elim (Bool-cases (c == b'-' && peek cs == b'-')) [
        | inl comment ↦
            let same : advance_while in_line inside.rest inside.location ≡ q =
              cc (rw (other, comment) at h) in
            Moves-two c cs l q
              (rw same at (Moves-advance_while in_line inside.rest inside.location))
        | inr other' ↦ elim (Bool-cases (c == b'/' && peek cs == b'*')) [
          | inl comment ↦ Moves-two c cs l q (block_lem inside (rw (other, other', comment) at h))
          | inr none' ↦ absurd (cc (rw (other, other', none') at h))
        ]
      ]
    ]

-- A round of `SkipTrivia` that goes on consumed a character.
pub trivia_round_lem :
    (p : Position) {q : Position}
    → trivia_round p ≡ skips q
    → Moves p q × (length q.rest < length p.rest)
trivia_round_lem p h = round_lem p.rest p.location h

-- Rounds of `SkipTrivia` lead from `p` to `q`, where there is nothing to skip.
pub data Gap : Position → Position → Type 0 where
  no_gap : {p : Position} → trivia_round p ≡ returns → Gap p p
  round : {p q r : Position} → trivia_round p ≡ skips q → Gap q r → Gap p r

-- What `SkipTrivia` returns.
pub data SkipEnd (p : Position) : Skipped → Type 0 where
  stops : (q : Position) → Moves p q → Gap p q → SkipEnd p (stopped q)
  fails : SkipEnd p throws_error

SkipEnd-from :
    (p q : Position)
    → trivia_round p ≡ skips q
    → Moves p q
    → (s : Skipped) → SkipEnd q s
    → SkipEnd p s
SkipEnd-from p q e m _ (stops r n g) = stops r (Moves-trans p q r m n) (round e g)
SkipEnd-from p q e m _ fails = fails

round_cases : (r : TriviaRound) → ((q : Position) × (r ≡ skips q)) ⊎ ((r ≡ returns) ⊎ (r ≡ throws))
round_cases (skips q) = inl (q, refl)
round_cases returns = inr (inl refl)
round_cases throws = inr (inr refl)

-- The rounds do not run out.
pub skip_trivia-SkipEnd : (n : ℕ) (p : Position) → length p.rest < n → SkipEnd p (skip_trivia n p)
unfolding skip_trivia
skip_trivia-SkipEnd zero p h = absurd (omega arith)
skip_trivia-SkipEnd (suc n) p h = elim (round_cases (trivia_round p)) [
  | inl (q, e) ↦
      let (m, shorter) = trivia_round_lem p e in
      rw (skip_trivia, e)
        (SkipEnd-from p q e m (skip_trivia n q) (skip_trivia-SkipEnd n q (omega arith)))
  | inr (inl e) ↦ rw (skip_trivia, e) (stops p (Moves-refl p) (no_gap e))
  | inr (inr e) ↦ rw (skip_trivia, e) fails
]
