-- ===== src/Engine.antt =====
-- hostagent/lifecycle.py: the life of one engine's child process, and the slot it holds.
pub mod Runtime
pub mod Consistency
pub mod Reservation
mod Samples
