-- ===== src/Common.antt =====
-- include/mattsql/common: error codes and results, SQL types and values, checked arithmetic; maps.
pub mod Status
pub mod Types
pub mod Checked
pub mod Values
pub mod Maps
