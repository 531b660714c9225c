-- ===== src/Lanes.antt =====
-- hostagent/scheduler.py: the lanes of the agent and the bound on how long a job waits.
pub mod State
pub mod Calls
pub mod Starvation
pub mod Overlap
mod Samples
