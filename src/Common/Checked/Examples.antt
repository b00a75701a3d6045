-- ===== src/Common/Checked/Examples.antt =====
-- Runs of the checked operations, and their theorems at concrete operands.
use matt_sql.Prelude.{◌^◌, ◌-◌, ◌≡◌, refl, arith}
use matt_sql.Prelude.Int.{pos, negsuc, ◌*ℤ◌}
use matt_sql.Common.Status.{ok, err, execution_error}
use matt_sql.Common.Types.{int64_min}
use matt_sql.Common.Checked.{
  checked_integer_multiply, checked_integer_divide, multiply_overflows, ◌/ℤ◌,
}
use matt_sql.Common.Checked.Bounds.{exact, multiply-exact, divide-exact}

multiply_overflow : checked_integer_multiply (pos (2 ^ 32)) (pos (2 ^ 31)) ≡ err execution_error
unfolding checked_integer_multiply multiply_overflows
multiply_overflow = refl

multiply_minimum : checked_integer_multiply (negsuc (2 ^ 32 - 1)) (pos (2 ^ 31)) ≡ ok int64_min
unfolding checked_integer_multiply multiply_overflows
multiply_minimum = refl

divide_minimum : checked_integer_divide int64_min (negsuc 0) ≡ err execution_error
unfolding checked_integer_divide
divide_minimum = refl

divide_truncates : checked_integer_divide (negsuc 6) (pos 2) ≡ ok (negsuc 2)
unfolding checked_integer_divide
divide_truncates = refl

multiply-exact_example :
    checked_integer_multiply (negsuc 1) (pos (2 ^ 62)) ≡ exact (negsuc 1 *ℤ pos (2 ^ 62))
multiply-exact_example = multiply-exact (negsuc 1) (pos (2 ^ 62)) (omega arith) (omega arith)

divide-exact_example : checked_integer_divide (negsuc 6) (pos 2) ≡ exact (negsuc 6 /ℤ pos 2)
divide-exact_example = divide-exact (negsuc 6) (pos 2) (omega arith) (omega arith)
