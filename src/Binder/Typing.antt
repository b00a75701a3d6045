-- ===== src/Binder/Typing.antt =====
-- The types of bound expressions (include/mattsql/binder/bound_expression.hpp): rules that are
-- independent of how src/binder/default_binder.cpp assigns them.
pub mod Soundness
use matt_sql.Prelude.{◌≡◌, refl, some, false, get_elem?}
use matt_sql.Common.Types.{
  SqlType, integer_type, text_type, boolean_type, null_type, ColumnSchema, TableSchema,
}
use matt_sql.Common.Values.{value_type_of}
use matt_sql.Binder.Expression.{
  BoundExpressionPtr, null_pointer, literal, column, unary, binary, star, is_null_pointer,
  UnaryOperator, plus, minus, logical_not, BinaryOperator, add, subtract, multiply, divide, equal,
  not_equal, less, less_equal, greater, greater_equal, logical_and, logical_or,
}
use matt_sql.Binder.Binding.{type_of}

-- Operator, operand and result.
pub data UnaryRule : UnaryOperator → SqlType → SqlType → Type 0 where
  plus_integer : UnaryRule plus integer_type integer_type
  minus_integer : UnaryRule minus integer_type integer_type
  not_boolean : UnaryRule logical_not boolean_type boolean_type

-- Types whose values `=` and `<>` compare.
pub data Comparable : SqlType → SqlType → Type 0 where
  integers : Comparable integer_type integer_type
  texts : Comparable text_type text_type
  booleans : Comparable boolean_type boolean_type
  null_left : {t : SqlType} → Comparable null_type t
  null_right : {t : SqlType} → Comparable t null_type
  boolean_integer : Comparable boolean_type integer_type
  integer_boolean : Comparable integer_type boolean_type

-- Types whose values the orders compare.
pub data Ordered : SqlType → SqlType → Type 0 where
  integers : Ordered integer_type integer_type
  texts : Ordered text_type text_type

-- Operator, operands and result.
pub data BinaryRule : BinaryOperator → SqlType → SqlType → SqlType → Type 0 where
  add_integers : BinaryRule add integer_type integer_type integer_type
  subtract_integers : BinaryRule subtract integer_type integer_type integer_type
  multiply_integers : BinaryRule multiply integer_type integer_type integer_type
  divide_integers : BinaryRule divide integer_type integer_type integer_type
  equal_values : {s t : SqlType} → Comparable s t → BinaryRule equal s t boolean_type
  not_equal_values : {s t : SqlType} → Comparable s t → BinaryRule not_equal s t boolean_type
  less_values : {s t : SqlType} → Ordered s t → BinaryRule less s t boolean_type
  less_equal_values : {s t : SqlType} → Ordered s t → BinaryRule less_equal s t boolean_type
  greater_values : {s t : SqlType} → Ordered s t → BinaryRule greater s t boolean_type
  greater_equal_values : {s t : SqlType} → Ordered s t → BinaryRule greater_equal s t boolean_type
  and_booleans : BinaryRule logical_and boolean_type boolean_type boolean_type
  or_booleans : BinaryRule logical_or boolean_type boolean_type boolean_type

-- Every node carries its type, and every column is one of the table at the place that it names.
abbrev pub IsTyped : TableSchema → BoundExpressionPtr → Type 0
IsTyped schema null_pointer = ⊥
IsTyped schema (literal t v) = value_type_of v ≡ t
IsTyped schema (column t i j n m) =
    (c : ColumnSchema) × (get_elem? schema j ≡ some c) × (c.type ≡ t)
IsTyped schema (unary t op e) = UnaryRule op (type_of e) t × IsTyped schema e
IsTyped schema (binary t e op f) =
    BinaryRule op (type_of e) (type_of f) t × IsTyped schema e × IsTyped schema f
IsTyped schema (star t) = ⊥

pub IsTyped-nonnull :
    (schema : TableSchema) (e : BoundExpressionPtr) → IsTyped schema e → is_null_pointer e ≡ false
unfolding is_null_pointer
IsTyped-nonnull schema null_pointer w = absurd w
IsTyped-nonnull schema e w = refl
