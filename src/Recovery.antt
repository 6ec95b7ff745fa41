-- ===== src/Recovery.antt =====
-- nla-browser-recovery.mjs: durable recovery of Browser tasks.
pub mod Ids
pub mod Contract
pub mod Store
pub mod Validate
pub mod Tasks
pub mod Finalize
pub mod Reads
pub mod Selected
pub mod Calls
pub mod Effects
pub mod Claimed
pub mod Claims
pub mod Release
pub mod Extends
pub mod History
pub mod Canonical
pub mod Starts
pub mod Finished
mod Examples
