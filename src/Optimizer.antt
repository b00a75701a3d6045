-- ===== src/Optimizer.antt =====
-- include/mattsql/optimizer and src/optimizer: the rewriting of expressions and plans.
pub mod Folding
pub mod Rules
