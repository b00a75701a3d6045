-- ===== src/Common/Values/Examples.antt =====
-- Runs of `CompareValues`, and its theorems at concrete values.
use matt_sql.Prelude.{◌≡◌, ◌≢◌, refl, true, [], ◌∷◌}
use matt_sql.Prelude.Int.{pos, ◌-ℤ◌}
use matt_sql.Common.Status.{ok, ◌>>=◌}
use matt_sql.Common.Types.{Value, null, integer, boolean, text}
use matt_sql.Common.Values.{compare_values}
use matt_sql.Common.Values.Order.{compare_values_swap}

abbrev apple : Value
apple = text (b'a' ∷ b'p' ∷ [])

abbrev avocado : Value
avocado = text (b'a' ∷ b'v' ∷ b'o' ∷ [])

true_is_one : compare_values (boolean true) (integer (pos 1)) ≡ ok (pos 0)
unfolding compare_values
true_is_one = refl

compare_values_swap_example :
    compare_values avocado apple ≡ (compare_values apple avocado >>= λ c. ok (pos 0 -ℤ c))
compare_values_swap_example = compare_values_swap apple avocado

apple-ne-null : apple ≢ null
apple-ne-null e = cc
