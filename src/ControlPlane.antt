-- ===== src/ControlPlane.antt =====
-- pkg/controlplane: the GPU nodes, their store and their provisioning.
pub mod Types
pub mod Store
pub mod Provisioner
pub mod Postgres
mod Tests
