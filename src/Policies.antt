-- ===== src/Policies.antt =====
-- gateway/app/scheduler.py: the scheduler of the policies, with the cooldown of gateway/app/quality.py.
pub mod Cooldown
pub mod State
pub mod Launching
pub mod Retries
pub mod Breaches
pub mod Watches
pub mod Tick
pub mod Parks
pub mod Dropping
pub mod Green
pub mod Reserving
pub mod Unanswered
pub mod Promoting
pub mod Fleet
pub mod Windows
pub mod Samples
