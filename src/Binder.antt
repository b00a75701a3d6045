-- ===== src/Binder.antt =====
-- include/mattsql/binder and src/binder: bound expressions.
pub mod Expression
pub mod Columns
pub mod Binding
pub mod Statements
pub mod Typing
mod Examples
