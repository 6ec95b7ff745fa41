-- ===== src/Health.antt =====
-- .opencode/plugins/nla-model-health.mjs: which model bindings may be tried, and when.
pub mod Classify
pub mod Manager
pub mod Claims
pub mod Failures
pub mod Runs
pub mod Previous
pub mod Candidates
mod Examples
