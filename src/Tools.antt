-- ===== src/Tools.antt =====
-- .opencode/plugins/nla-prompt-optimizer.mjs and nla-capability-cache.mjs: which tools a role gets.
pub mod Roles
pub mod Shortlist
pub mod Bounds
pub mod Profile
pub mod Cached
mod Examples
