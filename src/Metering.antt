-- ===== src/Metering.antt =====
-- platformlib/storeimpl/metering.py: GPU-seconds that are reserved, then settled or released.
pub mod Books
pub mod Sums
pub mod Reconciliation
pub mod Histories
pub mod Budgets
mod Samples
