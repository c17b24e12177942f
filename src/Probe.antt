-- ===== src/Probe.antt =====
-- exact/probe.rs: packed counters, the keyed permutation, exact range reduction, the position
-- code of the Elastic query order and the probe budget.
pub mod Counter
pub mod Packing
pub mod Mix
pub mod Permutation
pub mod Range
pub mod Reduced
pub mod Unbiased
pub mod Shortcut
pub mod FunnelRange
pub mod Phi
pub mod Budget
pub mod PhiValue
pub mod PhiOrder
pub mod PhiQuery
pub mod PhiBounded
mod Tests
