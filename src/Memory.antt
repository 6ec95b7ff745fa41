-- ===== src/Memory.antt =====
-- nla-memory.mjs and nla-compaction.mjs: the ledger of a session, and its compaction by a model.
pub mod Ledger
pub mod Compaction
pub mod Evidence
pub mod Normal
pub mod Kept
mod Examples
