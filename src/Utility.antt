-- ===== src/Utility.antt =====
-- .opencode/plugins/nla-utility-runtime.mjs: bounded requests to utility models, with failover.
pub mod Config
pub mod Response
pub mod Runtime
pub mod Flights
pub mod Answers
mod Examples
