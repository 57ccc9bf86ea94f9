-- ===== src/Builder/Channels.antt =====
-- Go's buffered channels of texts, and what sends and closes do.
pub mod Defs
pub mod Laws
