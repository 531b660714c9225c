-- ===== src/Evaluation.antt =====
-- gateway/app/evaluation.py, gateway/app/shadow.py and the windows of gateway/app/quality.py: scores, the gate
-- of a promotion and the comparison of two versions.
pub mod Metrics
pub mod Distances
pub mod Gating
pub mod Shadows
pub mod Verdicts
pub mod Sorting
pub mod Joining
pub mod Samples
