-- ===== src/System.antt =====
-- nla-system-database.mjs: the durable state of the plugin, one SQLite database.
pub mod Names
pub mod Json
pub mod Tables
pub mod Database
pub mod Lookups
pub mod Settings
pub mod Preferences
pub mod Orchestras
pub mod Writes
pub mod Calls
pub mod Active
pub mod Kept
pub mod Preferred
pub mod Usage
pub mod Accounts
pub mod Repeats
pub mod Registry
pub mod Listing
pub mod Sync
pub mod Runtime
pub mod Filled
pub mod Statuses
pub mod Disabled
pub mod Sessions
pub mod Marks
pub mod Blocked
pub mod Models
mod Examples
mod Samples
