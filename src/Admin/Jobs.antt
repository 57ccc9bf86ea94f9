-- ===== src/Admin/Jobs.antt =====
-- cmd/admin-rest/main.go: the jobs, from Postgres where it is configured and else from Redis.
pub mod Types
pub mod Redis
pub mod Rows
pub mod Handlers
pub mod Listing
