-- ===== src/Builder.antt =====
-- The runner builder: pkg/builder and cmd/builder/main.go.
pub mod Types
pub mod Channels
pub mod MemStore
pub mod Service
pub mod Postgres
pub mod Streaming
mod Tests
