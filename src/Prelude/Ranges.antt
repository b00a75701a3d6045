-- ===== src/Prelude/Ranges.antt =====
-- Runs of consecutive elements of a list: reads and writes of a range, as of bytes in a buffer.
use matt_sql.Prelude.Lists.{length, get_or, set, take, drop, length-set}
use Prim.Native.Nat.{ℕ, zero, suc, ◌+◌, ◌<◌, ◌≤◌}
use mathlib.Core.Path.{◌≡◌, refl, ap, ap₂, ◌∙◌}
use mathlib.Core.Logic.{◌≢◌, ◌⊎◌}
use mathlib.Core.List.{List, [], ◌∷◌}
use native.Mathlib.Omega.{arith}

module _ {ℓ} {A : Type ℓ} where
  -- The elements from `i` on, `n` of them; past the end `d`.
  abbrev pub range_or : List A → ℕ → ℕ → A → List A
  range_or xs i zero d = []
  range_or xs i (suc n) d = get_or xs i d ∷ range_or xs (suc i) n d

  -- A write of a list over the elements from `i` on.
  abbrev pub set_range : List A → ℕ → List A → List A
  set_range xs i [] = xs
  set_range xs i (y ∷ ys) = set_range (set xs i y) (suc i) ys

module _ {ℓ} {A : Type ℓ} where
  pub get_or-set_self :
      (xs : List A) (i : ℕ) (v d : A) → i < length xs → get_or (set xs i v) i d ≡ v
  get_or-set_self [] i v d h = absurd (omega arith)
  get_or-set_self (x ∷ xs) zero v d h = refl
  get_or-set_self (x ∷ xs) (suc i) v d h = get_or-set_self xs i v d (omega arith)

  pub get_or-set_ne :
      (xs : List A) (i j : ℕ) (v d : A) → i ≢ j → get_or (set xs i v) j d ≡ get_or xs j d
  get_or-set_ne [] i j v d h = refl
  get_or-set_ne (x ∷ xs) zero zero v d h = absurd (h refl)
  get_or-set_ne (x ∷ xs) zero (suc j) v d h = refl
  get_or-set_ne (x ∷ xs) (suc i) zero v d h = refl
  get_or-set_ne (x ∷ xs) (suc i) (suc j) v d h = get_or-set_ne xs i j v d (λ e. h (ap suc e))

  pub get_or-drop : (xs : List A) (i j : ℕ) (d : A) → get_or (drop i xs) j d ≡ get_or xs (i + j) d
  get_or-drop xs zero j d = ap (λ k. get_or xs k d) (omega arith)
  get_or-drop [] (suc i) j d = refl
  get_or-drop (x ∷ xs) (suc i) j d =
      get_or-drop xs i j d ∙ ap (λ k. get_or (x ∷ xs) k d) {x = suc (i + j)} (omega arith)

  drop-uncons :
      (xs : List A) (i : ℕ) (d : A) → i < length xs → drop i xs ≡ get_or xs i d ∷ drop (suc i) xs
  drop-uncons [] i d h = absurd (omega arith)
  drop-uncons (x ∷ xs) zero d h = refl
  drop-uncons (x ∷ xs) (suc i) d h = drop-uncons xs i d (omega arith)

  -- A slice is the range of its elements.
  pub take-drop_range :
      (xs : List A) (i n : ℕ) (d : A) → i + n ≤ length xs → take n (drop i xs) ≡ range_or xs i n d
  take-drop_range xs i zero d h = refl
  take-drop_range xs i (suc n) d h =
      rw (drop-uncons xs i d (omega arith))
        (ap (λ t. get_or xs i d ∷ t) (take-drop_range xs (suc i) n d (omega arith)))

  pub length-set_range :
      (xs : List A) (i : ℕ) (ys : List A) → length (set_range xs i ys) ≡ length xs
  length-set_range xs i [] = refl
  length-set_range xs i (y ∷ ys) = length-set_range (set xs i y) (suc i) ys ∙ length-set xs i y

  pub get_or-set_range_outside :
      (xs : List A) (i : ℕ) (ys : List A) (j : ℕ) (d : A)
      → (j < i) ⊎ (i + length ys ≤ j)
      → get_or (set_range xs i ys) j d ≡ get_or xs j d
  get_or-set_range_outside xs i [] j d h = refl
  get_or-set_range_outside xs i (y ∷ ys) j d h =
      get_or-set_range_outside (set xs i y) (suc i) ys j d (omega arith)
      ∙ get_or-set_ne xs i j y d (omega arith)

  pub range_or-agree :
      (xs ys : List A) (i n : ℕ) (d : A)
      → ((j : ℕ) → i ≤ j → j < i + n → get_or xs j d ≡ get_or ys j d)
      → range_or xs i n d ≡ range_or ys i n d
  range_or-agree xs ys i zero d h = refl
  range_or-agree xs ys i (suc n) d h =
      ap₂ (λ a t. a ∷ t) (h i (omega arith) (omega arith))
        (range_or-agree xs ys (suc i) n d (λ j lo hi. h j (omega arith) (omega arith)))

  -- What was written is read back.
  pub range_or-set_range :
      (xs : List A) (i : ℕ) (ys : List A) (d : A)
      → i + length ys ≤ length xs
      → range_or (set_range xs i ys) i (length ys) d ≡ ys
  range_or-set_range xs i [] d h = refl
  range_or-set_range xs i (y ∷ ys) d h =
      ap₂ (λ a t. a ∷ t)
        (get_or-set_range_outside (set xs i y) (suc i) ys i d (omega arith)
          ∙ get_or-set_self xs i y d (omega arith))
        (range_or-set_range (set xs i y) (suc i) ys d (omega (arith, length-set xs i y)))
