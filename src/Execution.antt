-- ===== src/Execution.antt =====
-- include/mattsql/execution and src/execution: expressions, rows, and plans.
pub mod Evaluator
pub mod Rows
pub mod Executor
pub mod Driver
mod Examples
