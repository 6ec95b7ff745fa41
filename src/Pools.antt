-- ===== src/Pools.antt =====
-- nla-model-pools.mjs: the model pools of a configuration file.
pub mod Binding
pub mod File
pub mod Loaded
pub mod Valid
pub mod Inventory
mod Examples
