-- ===== src/Planner.antt =====
-- include/mattsql/planner and src/planner: plans and how they are made.
pub mod Plans
pub mod Logical
pub mod Physical
