-- ===== src/Selection.antt =====
-- nla-model-selection.mjs and nla-task-assessor.mjs: which model a task gets.
pub mod Policy
pub mod Pool
pub mod Rank
pub mod Near
pub mod Candidates
pub mod Compare
pub mod Order
pub mod Boundary
pub mod Complete
pub mod Auto
pub mod Assess
pub mod Refine
pub mod Floors
mod Examples
