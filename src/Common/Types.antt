-- ===== src/Common/Types.antt =====
-- include/mattsql/common/types.hpp and catalog/schema.hpp: SQL types, values and table schemas.
-- A `std::string` is the list of its bytes, and a `std::int64_t` the integer that it stands for.
use matt_sql.Prelude.{ℕ, ◌^◌, ◌-◌, Bool, List}
use matt_sql.Prelude.Int.{ℤ, pos, negsuc, ◌≤ℤ◌}

pub data SqlType : Type 0 where
  integer_type text_type boolean_type null_type : SqlType

pub data Value : Type 0 where
  null : Value
  integer : ℤ → Value
  boolean : Bool → Value
  text : List ℕ → Value

pub record ColumnSchema : Type 0 where
  pub name : List ℕ
  pub type : SqlType
  pub nullable : Bool
  pub id : ℕ

abbrev pub TableSchema : Type 0
TableSchema = List ColumnSchema

abbrev pub int64_min : ℤ
int64_min = negsuc (2 ^ 63 - 1)

abbrev pub int64_max : ℤ
int64_max = pos (2 ^ 63 - 1)

-- The integers that a `std::int64_t` holds.
abbrev pub IsInt64 : ℤ → Type 0
IsInt64 n = (int64_min ≤ℤ n) × (n ≤ℤ int64_max)
