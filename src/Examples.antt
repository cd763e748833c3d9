-- ===== src/Examples.antt =====
-- The concrete inputs of the examples.
pub mod Uuid
pub mod Sources
mod Catalogue
mod Migrations
mod Changes
pub mod Identities
mod Stocks
pub mod Service
pub mod Accounts
mod Watching
mod Reading
mod Tracked
mod Searching
