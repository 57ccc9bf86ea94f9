-- ===== src/Admin/Models.antt =====
-- cmd/admin-rest/main.go: the models, on the registry, which may be missing.
pub mod Types
pub mod Create
pub mod Import
pub mod Handlers
pub mod Publishing
