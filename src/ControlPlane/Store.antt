-- ===== src/ControlPlane/Store.antt =====
-- pkg/controlplane/store.go: the nodes in memory and their file.
pub mod Defs
pub mod Keys
pub mod Persistence
pub mod Assignments
pub mod Updates
