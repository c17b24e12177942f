-- ===== src/Geometry.antt =====
-- exact/geometry.rs: exact integer formulas, the Elastic plan and the Funnel plan.
pub mod Arith
pub mod Rounding
pub mod Config
pub mod Levels
pub mod Quotas
pub mod Paths
pub mod Funnel
pub mod Partition
pub mod FirstCount
pub mod Search
pub mod Layout
pub mod Tests
