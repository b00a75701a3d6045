-- ===== src/Parser/Ast.antt =====
-- include/mattsql/parser/ast.hpp: statements and expressions as they are written.
use matt_sql.Prelude.{ℕ, Bool, List}
use matt_sql.Prelude.Int.{ℤ}

pub data UnaryOperator : Type 0 where
  plus minus logical_not : UnaryOperator

pub data BinaryOperator : Type 0 where
  add subtract multiply divide : BinaryOperator
  equal not_equal less less_equal greater greater_equal : BinaryOperator
  logical_and logical_or : BinaryOperator

-- An `ExpressionPtr`: the null pointer, or a node of one of the classes.
pub data ExpressionPtr : Type 0 where
  null_expression : ExpressionPtr
  integer_literal : ℤ → ExpressionPtr
  string_literal : List ℕ → ExpressionPtr
  boolean_literal : Bool → ExpressionPtr
  null_literal : ExpressionPtr
  column_ref : List ℕ → ExpressionPtr
  unary_expression : UnaryOperator → ExpressionPtr → ExpressionPtr
  binary_expression : ExpressionPtr → BinaryOperator → ExpressionPtr → ExpressionPtr
  star_expression : ExpressionPtr

pub record SelectProjection : Type 0 where
  pub expression : ExpressionPtr
  pub alias : List ℕ

-- The empty `table_name` stands for a SELECT with no FROM.
pub record SelectStatement : Type 0 where
  pub projections : List SelectProjection
  pub table_name : List ℕ
  pub where_clause : ExpressionPtr

pub record InsertStatement : Type 0 where
  pub table_name : List ℕ
  pub values : List ExpressionPtr

pub data TypeName : Type 0 where
  int_name text_name bool_name : TypeName

pub record ColumnDefinition : Type 0 where
  pub name : List ℕ
  pub type : TypeName

pub record CreateTableStatement : Type 0 where
  pub table_name : List ℕ
  pub columns : List ColumnDefinition

pub data Statement : Type 0 where
  select : SelectStatement → Statement
  insert : InsertStatement → Statement
  create : CreateTableStatement → Statement
