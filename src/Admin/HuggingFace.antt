-- ===== src/Admin/HuggingFace.antt =====
-- cmd/admin-rest/main.go: models of Hugging Face.
pub mod Defs
pub mod Weights
