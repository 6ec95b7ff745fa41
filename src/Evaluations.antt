-- ===== src/Evaluations.antt =====
-- nla-model-evaluations.mjs: the measured scores of the models.
pub mod Scores
pub mod Records
pub mod Ranges
pub mod Recorded
mod Examples
