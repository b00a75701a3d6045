-- ===== src/Execution/Evaluator/Overflow.antt =====
-- The checked operations fail only where arithmetic on unbounded integers gives a number that no
-- `int64_t` holds, or on a division by zero. The operands may be any integers.
use matt_sql.Prelude.{suc, ◌-◌, ◌^◌, ◌≡◌, ◌⊎◌, inl, inr, refl, ap, true, false, Bool-cases, arith}
use matt_sql.Prelude.Arith.{ltb-div}
use matt_sql.Prelude.Int.{ℤ, pos, negsuc, ◌+ℤ◌, ◌-ℤ◌, ◌*ℤ◌}
use matt_sql.Common.Status.{ErrorCode, Result, ok, err, execution_error}
use matt_sql.Common.Status.Post.{Post, returns, throws}
use matt_sql.Common.Types.{int64_min}
use matt_sql.Common.Checked.{
  checked_integer_negate, checked_integer_add, checked_integer_subtract, checked_integer_multiply,
  checked_integer_divide, multiply_overflows, eq_ℤ, ◌/ℤ◌,
}
use matt_sql.Common.Checked.Bounds.{fits_int64}

-- A failure is an `ExecutionError`, where `P` holds.
abbrev pub FailsOnlyIf : Type 0 → Result ℤ → Type 0
FailsOnlyIf P = Post (λ n. Unit) (λ e. (e ≡ execution_error) × P)

fails_only_if :
    {P : Type 0} (r : Result ℤ)
    → ((e : ErrorCode) → r ≡ err e → (e ≡ execution_error) × P)
    → FailsOnlyIf P r
fails_only_if (ok n) h = returns tt
fails_only_if (err e) h = throws (h e refl)

negate_lem :
    (a : ℤ) (e : ErrorCode)
    → checked_integer_negate a ≡ err e
    → (e ≡ execution_error) × (fits_int64 (pos 0 -ℤ a) ≡ false)
unfolding checked_integer_negate
negate_lem a e h = (ground arith, ground arith)

add_lem :
    (a b : ℤ) (e : ErrorCode)
    → checked_integer_add a b ≡ err e
    → (e ≡ execution_error) × (fits_int64 (a +ℤ b) ≡ false)
unfolding checked_integer_add
add_lem a b e h = (ground arith, ground arith)

subtract_lem :
    (a b : ℤ) (e : ErrorCode)
    → checked_integer_subtract a b ≡ err e
    → (e ≡ execution_error) × (fits_int64 (a -ℤ b) ≡ false)
unfolding checked_integer_subtract
subtract_lem a b e h = (ground arith, ground arith)

multiply_overflows_only :
    (a b : ℤ)
    → eq_ℤ a (pos 0) ≡ false
    → eq_ℤ b (pos 0) ≡ false
    → multiply_overflows a b ≡ true
    → fits_int64 (a *ℤ b) ≡ false
unfolding multiply_overflows ◌*ℤ◌
multiply_overflows_only (pos a) (pos b) a0 b0 h = ground (arith, ltb-div (2 ^ 63 - 1) a b)
multiply_overflows_only (pos a) (negsuc b) a0 b0 h = ground (arith, ltb-div (2 ^ 63) (suc b) a)
multiply_overflows_only (negsuc a) (pos b) a0 b0 h = ground (arith, ltb-div (2 ^ 63) (suc a) b)
multiply_overflows_only (negsuc a) (negsuc b) a0 b0 h =
    ground (arith, ltb-div (2 ^ 63 - 1) (suc a) (suc b))

multiply_lem :
    (a b : ℤ) (e : ErrorCode)
    → checked_integer_multiply a b ≡ err e
    → (e ≡ execution_error) × (fits_int64 (a *ℤ b) ≡ false)
unfolding checked_integer_multiply
multiply_lem (pos a) (pos b) e h =
    (ground arith, ground (arith, multiply_overflows_only (pos a) (pos b)))
multiply_lem (pos a) (negsuc b) e h =
    (ground arith, ground (arith, multiply_overflows_only (pos a) (negsuc b)))
multiply_lem (negsuc a) (pos b) e h =
    (ground arith, ground (arith, multiply_overflows_only (negsuc a) (pos b)))
multiply_lem (negsuc a) (negsuc b) e h =
    (ground arith, ground (arith, multiply_overflows_only (negsuc a) (negsuc b)))

eq_lem : (a b : ℤ) → eq_ℤ a b ≡ true → a ≡ b
eq_lem (pos n) (pos m) h = ap pos (ground arith)
eq_lem (pos n) (negsuc m) h = absurd (ground arith)
eq_lem (negsuc n) (pos m) h = absurd (ground arith)
eq_lem (negsuc n) (negsuc m) h = ap negsuc (ground arith)

least_quotient : fits_int64 (int64_min /ℤ negsuc 0) ≡ false
unfolding ◌/ℤ◌
least_quotient = refl

divide_lem :
    (a b : ℤ) (e : ErrorCode)
    → checked_integer_divide a b ≡ err e
    → (e ≡ execution_error) × ((b ≡ pos 0) ⊎ (fits_int64 (a /ℤ b) ≡ false))
unfolding checked_integer_divide
divide_lem a b e h = elim (Bool-cases (eq_ℤ b (pos 0))) [
  | inl zero ↦ (ground arith, inl (eq_lem b (pos 0) zero))
  | inr nonzero ↦
      let least : eq_ℤ a int64_min ≡ true = ground arith in
      let minus_one : eq_ℤ b (negsuc 0) ≡ true = ground arith in
      (
        ground arith,
        inr (rw (eq_lem a int64_min least, eq_lem b (negsuc 0) minus_one) least_quotient),
      )
]

-- The same as a postcondition.
pub negate_fails :
    (a : ℤ) → FailsOnlyIf (fits_int64 (pos 0 -ℤ a) ≡ false) (checked_integer_negate a)
negate_fails a = fails_only_if _ (negate_lem a)

pub add_fails : (a b : ℤ) → FailsOnlyIf (fits_int64 (a +ℤ b) ≡ false) (checked_integer_add a b)
add_fails a b = fails_only_if _ (add_lem a b)

pub subtract_fails :
    (a b : ℤ) → FailsOnlyIf (fits_int64 (a -ℤ b) ≡ false) (checked_integer_subtract a b)
subtract_fails a b = fails_only_if _ (subtract_lem a b)

pub multiply_fails :
    (a b : ℤ) → FailsOnlyIf (fits_int64 (a *ℤ b) ≡ false) (checked_integer_multiply a b)
multiply_fails a b = fails_only_if _ (multiply_lem a b)

pub divide_fails :
    (a b : ℤ)
    → FailsOnlyIf ((b ≡ pos 0) ⊎ (fits_int64 (a /ℤ b) ≡ false)) (checked_integer_divide a b)
divide_fails a b = fails_only_if _ (divide_lem a b)
