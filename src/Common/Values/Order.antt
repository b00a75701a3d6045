-- ===== src/Common/Values/Order.antt =====
-- `CompareValues` orders the values of a type totally.
use matt_sql.Prelude.{ℕ, ◌≡◌, refl, true, false, List, [], ◌∷◌, arith, ◌↔◌, ◌≢◌}
use matt_sql.Prelude.Int.{pos, ◌-ℤ◌}
use matt_sql.Common.Status.{ok, ◌>>=◌}
use matt_sql.Common.Types.{Value, null, text}
use matt_sql.Common.Values.{compare_values, text_less, value_type_of}

text_less_asym : (a b : List ℕ) → text_less a b ≡ true → text_less b a ≡ false
unfolding text_less
text_less_asym [] [] h = cc
text_less_asym [] (y ∷ b) h = refl
text_less_asym (x ∷ a) [] h = cc
text_less_asym (x ∷ a) (y ∷ b) h = ground (arith, text_less_asym a b)

-- Swapping the operands negates the result of a comparison, and keeps its error.
pub compare_values_swap :
    (a b : Value) → compare_values b a ≡ (compare_values a b >>= λ c. ok (pos 0 -ℤ c))
unfolding compare_values ◌-ℤ◌
compare_values_swap (text a) (text b) = ground (arith, text_less_asym a b, text_less_asym b a)
compare_values_swap a b = ground arith

text_less_total : (a b : List ℕ) → text_less a b ≡ false → text_less b a ≡ false → a ≡ b
unfolding text_less
text_less_total [] [] h k = refl
text_less_total [] (y ∷ b) h k = cc
text_less_total (x ∷ a) [] h k = cc
text_less_total (x ∷ a) (y ∷ b) h k = ground (arith, text_less_total a b)

text_less_irrefl : (a : List ℕ) → text_less a a ≡ false
unfolding text_less
text_less_irrefl [] = refl
text_less_irrefl (x ∷ a) = ground (arith, text_less_irrefl a)

-- Two values that are not NULL and have one type compare as equal exactly if they are the same.
pub compare_values_eq :
    (a b : Value)
    → a ≢ null
    → value_type_of a ≡ value_type_of b
    → (compare_values a b ≡ ok (pos 0)) ↔ (a ≡ b)
unfolding compare_values value_type_of
compare_values_eq (text a) (text b) n t =
    (ground (arith, text_less_total a b), ground (arith, text_less_irrefl a, text_less_irrefl b))
compare_values_eq a b n t = (ground arith, ground arith)
