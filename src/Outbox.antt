-- ===== src/Outbox.antt =====
-- gateway/app/metering.py: the gateway's side of metering, with its write-ahead log of settlements.
pub mod File
pub mod Service
pub mod Lines
pub mod Accounts
pub mod Owed
pub mod Replay
pub mod Once
pub mod Reports
mod Samples
