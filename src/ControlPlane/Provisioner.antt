-- ===== src/ControlPlane/Provisioner.antt =====
-- pkg/controlplane/provisioner.go: the runner of a node is installed over SSH.
pub mod Env
pub mod Compose
pub mod Remote
pub mod Install
pub mod Written
pub mod Deployed
pub mod Services
pub mod Outcome
