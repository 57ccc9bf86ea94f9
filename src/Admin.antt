-- ===== src/Admin.antt =====
-- cmd/admin-rest: the REST service for queues, jobs, Redis and the registry of models.
pub mod Answers
pub mod HuggingFace
pub mod Jobs
pub mod Models
pub mod Queues
pub mod Memory
mod Tests
