-- ===== src/Activation.antt =====
-- gateway/app/activation.py and promotion.py: making a promoted model the served one, in steps that
-- a restart resumes.
pub mod Store
pub mod Service
pub mod Requests
pub mod Outcomes
pub mod Steps
pub mod Runs
pub mod Recovery
pub mod Passes
pub mod Single
pub mod History
pub mod GoLive
pub mod Preflight
mod Samples
