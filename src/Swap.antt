-- ===== src/Swap.antt =====
-- hostagent/swap.py: one engine takes the place of another, as a transaction on the slot.
pub mod Transaction
pub mod Laws
pub mod Refusals
mod Samples
