-- ===== src/Admin/Queues.antt =====
-- cmd/admin-rest/main.go: Redis, its queues and its keys.
pub mod Handlers
pub mod Wiping
