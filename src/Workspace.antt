-- ===== src/Workspace.antt =====
-- nla-reconciliation.mjs: the state of a git workspace, compared with what a ledger saved.
pub mod Status
pub mod State
mod Examples
