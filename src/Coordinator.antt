-- ===== src/Coordinator.antt =====
-- hostagent/coordinator.py and hostagent/gpuconfig.py, one child for each part.
pub mod Config
pub mod State
pub mod Claims
pub mod Victims
pub mod Stage1
pub mod Branches
pub mod Loading
pub mod Handoff
pub mod Eviction
pub mod Bounds
pub mod Selection
pub mod Sections
pub mod Exclusive
pub mod Barrier
pub mod Balance
pub mod Counting
pub mod Admitting
pub mod Disposing
pub mod Draining
pub mod Release
pub mod Histories
pub mod Refusals
mod Samples
