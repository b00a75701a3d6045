-- ===== src/Common/Checked/Bounds.antt =====
-- The checked operations return the exact result where an `int64_t` holds it, and fail elsewhere.
use matt_sql.Prelude.{suc, ◌+◌, ◌-◌, ◌^◌, not, ◌≡◌, ◌≢◌, Bool, ◌&&◌, arith, leb, if◌then◌else◌}
use matt_sql.Prelude.Arith.{ltb-div}
use native.Mathlib.Nat.{div-le_self}
use matt_sql.Prelude.Int.{ℤ, pos, negsuc, ◌+ℤ◌, ◌-ℤ◌, ◌*ℤ◌, pos_part, neg_part}
use matt_sql.Common.Status.{Result, ok, err, execution_error}
use matt_sql.Common.Types.{int64_min, int64_max, IsInt64}
use matt_sql.Common.Checked.{
  checked_integer_negate, checked_integer_add, checked_integer_subtract, checked_integer_multiply,
  checked_integer_divide, multiply_overflows, ◌/ℤ◌, eq_ℤ,
}

abbrev pub leb_ℤ : ℤ → ℤ → Bool
leb_ℤ a b = leb (pos_part a + neg_part b) (pos_part b + neg_part a)

-- Does an `int64_t` hold `n`?
abbrev pub fits_int64 : ℤ → Bool
fits_int64 n = leb_ℤ int64_min n && leb_ℤ n int64_max

-- The result that arithmetic on unbounded integers gives, where it fits.
abbrev pub exact : ℤ → Result ℤ
exact n = if fits_int64 n then ok n else err execution_error

-- Negation of an `int64_t` is exact, and fails only where -n does not fit.
pub negate-exact : (n : ℤ) → IsInt64 n → checked_integer_negate n ≡ exact (pos 0 -ℤ n)
unfolding checked_integer_negate
negate-exact n h = ground arith

-- Addition of two `int64_t` is exact, and fails exactly where the sum does not fit.
pub add-exact : (a b : ℤ) → IsInt64 a → IsInt64 b → checked_integer_add a b ≡ exact (a +ℤ b)
unfolding checked_integer_add
add-exact a b ha hb = ground arith

-- Subtraction of two `int64_t` is exact, and fails exactly where the difference does not fit.
pub subtract-exact :
    (a b : ℤ) → IsInt64 a → IsInt64 b → checked_integer_subtract a b ≡ exact (a -ℤ b)
unfolding checked_integer_subtract
subtract-exact a b ha hb = ground arith

-- The tests on the quotients decide whether the product fits.
multiply_overflows_lem :
    (a b : ℤ)
    → IsInt64 a
    → IsInt64 b
    → a ≢ pos 0
    → b ≢ pos 0
    → multiply_overflows a b ≡ not (fits_int64 (a *ℤ b))
unfolding multiply_overflows ◌*ℤ◌
multiply_overflows_lem (pos a) (pos b) ha hb a0 b0 = ground (arith, ltb-div (2 ^ 63 - 1) a b)
multiply_overflows_lem (pos a) (negsuc b) ha hb a0 b0 = ground (arith, ltb-div (2 ^ 63) (suc b) a)
multiply_overflows_lem (negsuc a) (pos b) ha hb a0 b0 = ground (arith, ltb-div (2 ^ 63) (suc a) b)
multiply_overflows_lem (negsuc a) (negsuc b) ha hb a0 b0 =
    ground (arith, ltb-div (2 ^ 63 - 1) (suc a) (suc b))

-- Multiplication of two `int64_t` is exact, and fails exactly where the product does not fit.
pub multiply-exact :
    (a b : ℤ) → IsInt64 a → IsInt64 b → checked_integer_multiply a b ≡ exact (a *ℤ b)
unfolding checked_integer_multiply
multiply-exact (pos a) (pos b) ha hb = ground (arith, multiply_overflows_lem (pos a) (pos b))
multiply-exact (pos a) (negsuc b) ha hb = ground (arith, multiply_overflows_lem (pos a) (negsuc b))
multiply-exact (negsuc a) (pos b) ha hb = ground (arith, multiply_overflows_lem (negsuc a) (pos b))
multiply-exact (negsuc a) (negsuc b) ha hb =
    ground (arith, multiply_overflows_lem (negsuc a) (negsuc b))

-- Division of an `int64_t` by another that is not 0 truncates, and fails only where the quotient
-- does not fit; division by 0 fails.
pub divide-exact :
    (a b : ℤ)
    → IsInt64 a
    → IsInt64 b
    → checked_integer_divide a b ≡ (if eq_ℤ b (pos 0) then err execution_error else exact (a /ℤ b))
unfolding checked_integer_divide
divide-exact (pos a) (pos b) ha hb = ground (arith, div-le_self a b)
divide-exact (pos a) (negsuc b) ha hb = ground (arith, div-le_self a (suc b))
divide-exact (negsuc a) (pos b) ha hb = ground (arith, div-le_self (suc a) b)
divide-exact (negsuc a) (negsuc b) ha hb = ground (arith, div-le_self (suc a) (suc b))
