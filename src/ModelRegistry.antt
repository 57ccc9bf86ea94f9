-- ===== src/ModelRegistry.antt =====
-- pkg/modelregistry: the registry of models and their versions in Postgres.
pub mod Types
pub mod Rows
pub mod Statements
pub mod Queries
pub mod Store
pub mod Template
pub mod Placeholders
pub mod Arrays
pub mod Tables
pub mod Creating
pub mod Publish
pub mod Migrations
pub mod Sorting
pub mod Memory
mod Tests
