-- ===== src/Gateway.antt =====
-- cmd/gateway/main.go: the public HTTP interface. A handler maps a request and the answers of the
-- orchestrator's client to a response; writing to the connection is not modelled.
pub mod Paths
pub mod Handlers
mod Polling
mod Answers
mod Tests
