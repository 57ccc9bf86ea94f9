-- ===== src/Lib.antt =====
-- A model of the Go services of this repository and of what makes them correct.
--
-- The program takes inference requests over HTTP, keeps them as jobs, and manages the machines and images that
-- run them. The parts and the files that model them:
--
-- * pkg/auth (Auth): the API key of a request.
-- * pkg/orchestrator (OrchestratorClient; Events for the reader of server-sent events): the HTTP client that the
--   gateway uses. `submit_job`, `get_job`, `cancel_job`, `invoke_sync`, `stream_status` are the methods of Client;
--   `read_events` is ReadEvents with a callback on an explicit state.
-- * cmd/gateway and pkg/falcompat (Gateway: Paths, Handlers): each handler is a function from a request to an
--   answer, on the client above. A path is split by `split_request_path` and printed by `response_url`.
-- * pkg/builder (Builder: Types, Channels, MemStore): the store of builds. A Go channel is a buffer in a heap, at
--   most 32 lines long; a method returns, panics or blocks (`Run`).
-- * cmd/builder (Builder/Service): `handle_create_build` is the handler up to its answer and `run_build` what it
--   starts in the background, as steps on the store, a database that may be missing, and the calls of the registry.
--   Builder/Streaming is the stream of a build's log, beside the calls of other goroutines.
-- * pkg/registry (Registry): a map from a model to its target, which nothing uses yet.
-- * pkg/controlplane (ControlPlane: Types, Store, Provisioner): the nodes. `Store` holds the maps and the file as it
--   would be decoded; each method is one step under the lock. The provisioner writes files and runs commands on a
--   host that answers from the list of all that was done before, and reports to a `Repository`; the store in memory
--   is an instance of that interface.
--   pkg/controlplane/pg_store.go (ControlPlane/Postgres) is the same store in Postgres; `Agreement` and `Refinement`
--   set it against the one in memory, and `Provisioning` puts the provisioner on it.
-- * pkg/builder/postgres_store.go (Builder/Postgres): the builds in Postgres, an instance of the database that the
--   builder service takes.
-- * pkg/modelregistry (ModelRegistry): models and their versions in Postgres. Types are the Go structs, `Rows` what is
--   made of a scanned row, `Statements` and `Queries` the SQL texts, `Store` the operations, `Migrations` EnsureSchema;
--   `Tables` is the contract of the statements, which `Memory` fills.
-- * cmd/admin-rest (Admin): `Jobs`, `Queues` and `Models` hold the handlers, `HuggingFace` what the import reads. The
--   handlers for models call the registry above through an interface.
-- * database/sql (Sql): the values and errors which the stores in Postgres share.
-- * pkg/queue (Queue): the job queue, on a `Redis` interface.
-- * Prelude, Strings and Maps are shared: numbers and lists, Go's `strings`, and Go's maps as association lists. A
--   theorem for every association list holds for every order in which a `range` loop may visit the map.
--
-- Text is a list of code points. Names are compared by the simple case foldings of Unicode (Strings/CaseFolding);
-- `to_upper` and `to_lower` map to ASCII what Go maps to it and leave all else, as the statuses and the endings of the
-- source need. Loops are structural recursion on what they read. The only fuel is that of
-- `digits`: eleven octal digits print a file mode of 32 bits, twenty decimal digits an int of 64.
--
-- SQL is kept as text. A theorem on a store in Postgres assumes what the statements do to the tables, under the texts
-- that the source sends; values that Postgres would refuse, as code point 0, are left to the predicates of the contract
-- or excluded by a database that takes every text, as each contract says.
--
-- Parameters of the model: the HTTP transport, JSON and YAML encoders, Redis, the SSH connection and the host behind
-- it, the build command, base64, the clock, generated ids, environment variables and the disk. Where a theorem relies
-- on what they document, the hypothesis is a record of laws, and the tests have an instance of it.
--
-- Not modelled: routing, middleware and process start; opening and closing connections; the DDL of the stores in
-- Postgres; the orchestrator in Rust and the runners in Python; changes of a node through a pointer that the store has
-- handed out; interleavings of goroutines, but for the one of Broadcast and CloseSubscribers, whose two halves are separate steps, and those of a log's stream with
-- whole calls of the store.
mod Prelude
pub mod Strings
pub mod Maps
pub mod Admin
pub mod Auth
pub mod OrchestratorClient
pub mod Gateway
pub mod Builder
pub mod ControlPlane
pub mod ModelRegistry
pub mod Queue
pub mod Sql
pub mod Registry
