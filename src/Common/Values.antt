-- ===== src/Common/Values.antt =====
-- The tests on values of include/mattsql/common/value_utils.hpp.
pub mod Order
mod Examples
use matt_sql.Prelude.{
  ℕ, ◌+◌, Bool, true, false, Option, none, some, List, [], ◌∷◌, ltb, ◌==◌, if◌then◌else◌,
}
use matt_sql.Prelude.Int.{ℤ, pos, negsuc, ltb_ℤ}
use matt_sql.Common.Status.{Result, ok, err, type_mismatch, execution_error}
use matt_sql.Common.Types.{
  SqlType, integer_type, text_type, boolean_type, null_type, Value, null, integer, boolean, text,
}

unfoldable pub is_null : Value → Bool
is_null null = true
is_null (integer n) = false
is_null (boolean b) = false
is_null (text t) = false

unfoldable pub value_type_of : Value → SqlType
value_type_of (integer n) = integer_type
value_type_of (text t) = text_type
value_type_of (boolean b) = boolean_type
value_type_of null = null_type

-- `==` on `SqlType`
unfoldable pub type_eq : SqlType → SqlType → Bool
type_eq integer_type integer_type = true
type_eq text_type text_type = true
type_eq boolean_type boolean_type = true
type_eq null_type null_type = true
type_eq _ _ = false

unfoldable pub value_matches_type : Value → SqlType → Bool
unfolding type_eq value_type_of
value_matches_type value type = type_eq (value_type_of value) type

unfoldable pub integral_value : Value → Option ℤ
integral_value (integer n) = some n
integral_value (boolean b) = if b then some (pos 1) else some (pos 0)
integral_value (text t) = none
integral_value null = none

unfoldable pub require_integer : Value → Result ℤ
require_integer (integer n) = ok n
require_integer (boolean b) = err type_mismatch
require_integer (text t) = err type_mismatch
require_integer null = err type_mismatch

unfoldable pub require_boolean : Value → Result Bool
require_boolean (boolean b) = ok b
require_boolean (integer n) = err type_mismatch
require_boolean (text t) = err type_mismatch
require_boolean null = err type_mismatch

-- `<` on `std::string`: the first byte that differs decides, and a proper prefix is less.
unfoldable pub text_less : List ℕ → List ℕ → Bool
text_less [] [] = false
text_less [] (b ∷ bs) = true
text_less (a ∷ as_) [] = false
text_less (a ∷ as_) (b ∷ bs) = if ltb a b then true else if ltb b a then false else text_less as_ bs

-- -1, 0 or 1
unfoldable pub three_way : Bool → Bool → ℤ
three_way less greater = if less then negsuc 0 else if greater then pos 1 else pos 0

compare_integral : Option ℤ → Option ℤ → Result ℤ
unfolding three_way
compare_integral (some a) (some b) = ok (three_way (ltb_ℤ a b) (ltb_ℤ b a))
compare_integral (some a) none = err type_mismatch
compare_integral none (some b) = err type_mismatch
compare_integral none none = err type_mismatch

-- the part of `CompareValues` behind the test for NULL
compare_nonnull : Value → Value → Result ℤ
unfolding compare_integral integral_value three_way text_less
compare_nonnull (text a) (text b) = ok (three_way (text_less a b) (text_less b a))
compare_nonnull left right = compare_integral (integral_value left) (integral_value right)

unfoldable pub compare_values : Value → Value → Result ℤ
unfolding is_null compare_nonnull
compare_values left right =
    if is_null left
    then err execution_error
    else if is_null right
    then err execution_error
    else compare_nonnull left right
