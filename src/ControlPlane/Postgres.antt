-- ===== src/ControlPlane/Postgres.antt =====
-- pkg/controlplane/pg_store.go: nodes and events in Postgres, a repository beside the store in memory.
pub mod Defs
pub mod Contract
pub mod Agreement
pub mod Refinement
pub mod Encoding
pub mod Memory
pub mod Provisioning
mod Tests
