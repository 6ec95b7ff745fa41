-- ===== src/Companion.antt =====
-- skills/brainstorming/scripts/server.cjs: the server of the brainstorm companion.
pub mod Frames
pub mod Masking
pub mod Streaming
mod Examples
