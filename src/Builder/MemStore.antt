-- ===== src/Builder/MemStore.antt =====
-- pkg/builder/store.go: the builds in memory, their logs and the subscribers of these. Each method runs
-- under the store's lock; what a subscriber receives is taken from the shared heap of channels.
pub mod Defs
pub mod Invariant
pub mod Subscribing
pub mod Replay
