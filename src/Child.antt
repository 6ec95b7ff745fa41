-- ===== src/Child.antt =====
-- nla-child-recovery.mjs: how the incomplete answer of a child session is completed.
pub mod Resume
pub mod Outcomes
mod Examples
