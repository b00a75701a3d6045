-- ===== src/Common/Checked.antt =====
-- The checked integer operations of include/mattsql/common/value_utils.hpp.
-- The tests on the operands are computed without wrapping, as the guards leave no overflow.
pub mod Bounds
mod Examples
use matt_sql.Prelude.{ℕ, suc, ◌/◌, ◌-◌, ◌+◌, Bool, ◌&&◌, ◌||◌, if◌then◌else◌, ◌==◌, leb}
use matt_sql.Prelude.Int.{ℤ, pos, negsuc, ◌+ℤ◌, ◌-ℤ◌, ◌*ℤ◌, ltb_ℤ, pos_part, neg_part, sub_ℕ}
use matt_sql.Common.Status.{Result, ok, err, execution_error}
use matt_sql.Common.Types.{int64_min, int64_max}

-- `==` on integers
abbrev pub eq_ℤ : ℤ → ℤ → Bool
eq_ℤ a b = pos_part a + neg_part b == pos_part b + neg_part a

-- The division of C++ truncates towards zero.
infixl 70 ◌/ℤ◌
unfoldable pub ◌/ℤ◌ : ℤ → ℤ → ℤ
pos a /ℤ pos b = pos (a / b)
pos a /ℤ negsuc b = sub_ℕ 0 (a / suc b)
negsuc a /ℤ pos b = sub_ℕ 0 (suc a / b)
negsuc a /ℤ negsuc b = pos (suc a / suc b)

unfoldable pub checked_integer_negate : ℤ → Result ℤ
unfolding ◌-ℤ◌
checked_integer_negate value =
    if eq_ℤ value int64_min then err execution_error else ok (pos 0 -ℤ value)

unfoldable pub checked_integer_add : ℤ → ℤ → Result ℤ
unfolding ◌+ℤ◌ ◌-ℤ◌
checked_integer_add left right =
    if (ltb_ℤ (pos 0) right && ltb_ℤ (int64_max -ℤ right) left)
      || (ltb_ℤ right (pos 0) && ltb_ℤ left (int64_min -ℤ right))
    then err execution_error
    else ok (left +ℤ right)

unfoldable pub checked_integer_subtract : ℤ → ℤ → Result ℤ
unfolding ◌+ℤ◌ ◌-ℤ◌
checked_integer_subtract left right =
    if (ltb_ℤ (pos 0) right && ltb_ℤ left (int64_min +ℤ right))
      || (ltb_ℤ right (pos 0) && ltb_ℤ (int64_max +ℤ right) left)
    then err execution_error
    else ok (left -ℤ right)

-- the tests of `CheckedIntegerMultiply` for operands other than 0 and -1
unfoldable pub multiply_overflows : ℤ → ℤ → Bool
unfolding ◌/ℤ◌
multiply_overflows left right =
    if ltb_ℤ (pos 0) left
    then (ltb_ℤ (pos 0) right && ltb_ℤ (int64_max /ℤ right) left)
      || (ltb_ℤ right (pos 0) && ltb_ℤ right (int64_min /ℤ left))
    else (ltb_ℤ (pos 0) right && ltb_ℤ left (int64_min /ℤ right))
      || (ltb_ℤ right (pos 0) && ltb_ℤ left (int64_max /ℤ right))

unfoldable pub checked_integer_multiply : ℤ → ℤ → Result ℤ
unfolding checked_integer_negate ◌*ℤ◌
checked_integer_multiply left right =
    if eq_ℤ left (pos 0) || eq_ℤ right (pos 0)
    then ok (pos 0)
    else if eq_ℤ left (negsuc 0)
    then checked_integer_negate right
    else if eq_ℤ right (negsuc 0)
    then checked_integer_negate left
    else if multiply_overflows left right
    then err execution_error
    else ok (left *ℤ right)

unfoldable pub checked_integer_divide : ℤ → ℤ → Result ℤ
unfolding ◌/ℤ◌
checked_integer_divide left right =
    if eq_ℤ right (pos 0)
    then err execution_error
    else if eq_ℤ left int64_min && eq_ℤ right (negsuc 0)
    then err execution_error
    else ok (left /ℤ right)
