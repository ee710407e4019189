-- ===== src/Lib.antt =====
-- Verification of the core of next-infra, a local inventory of infrastructure resources.
--
-- Connectors observe a provider and hand over batches of resources and relations. The normalizer
-- turns an observation into a validated batch. The sync engine opens a run, checks the batch against
-- it, projects the batch onto the stored rows, and hands the store one commit per run through a queue.
-- The inference engine and the binding service add relations of their own, the runtime plans when
-- connections are due and drains the queue when it stops, and the query service answers from snapshots
-- of the store. The desktop host runs all of these, and an MCP bridge connects to it or launches it.
-- The store is reached through traits only.
--
-- Parts and files:
--   Base: shared helpers. Results (`Result` with `?` as `do`), Texts (Rust strings as lists of Unicode
--     scalar values, `trim`, `split`, decimal), Maps (`BTreeMap` and `BTreeSet` as lists in key order),
--   Tests (Boolean tests), Lists, Integers (the `i64` side of a timestamp).
--   Core: crates/next-infra-core/src. Ids is ids.rs (`string_value!`, `validated_string!`), Status,
--   Coverage, Evidence, Error, Secret, Model, MissingEvidence and Ports are the files of those names;
--   Json is the part of `serde_json::Value` that is used, and Encode what serde derives.
--   ConnectorApi/Observation: crates/next-infra-connector-api/src/observation.rs.
--   Normalizer: crates/next-infra-normalizer/src/lib.rs. Batch has the data, Scan has
--     `scan_for_secrets`, `scan_text` and `is_sensitive_field_name`, Attributes has
--     `project_attributes`, Normalize has `Normalizer::new` and, in Observed, `normalize`.
--   Sync/Writer: crates/next-infra-sync/src/writer.rs (`enqueue`, `flush`, `submit`).
--   Sync/Identity, Project, Changes, Guards, Build and Engine: crates/next-infra-sync/src/engine.rs.
--   Engine has `start`, `commit`, `fail` and `recover`; Guards has `validate_handle`,
--     `validate_coverage` and `initial_coverage`; Build/Resources, Relations and Absences are the loops
--     of `build_commit`, and Build/Commit puts them together; Identity has the stable identifiers,
--   Project the projections, Changes the snapshots, differences and change records.
--   Binding: crates/next-infra-binding/src/lib.rs. Input has the input and the errors; Commit has
--     `binding_commit` and what it calls; Service has `create`, `update`, `disable` and `reconcile`.
--     Each plans against the store as it is, and then writes the commit of its plan, if it has one.
--     `Uuid::new_v4` is an argument, `serde_json::to_vec` and sha256 are the parameter `Hashing`
--     of Core/Hashing, for the normalizer too.
--   LocalRpc/Framing: crates/next-infra-local-rpc/src/protocol/framing.rs (`encode_frame`,
--     `decode_frame`, `decode_frame_bytes`, `LimitedWriter`). `serde_json::to_writer` and `from_slice` are
--     the parameter `Codec`, and `CodecLaws` is what the theorems ask of them.
--   LocalRpc/Errors, Capabilities and Handshake: crates/next-infra-local-rpc/src/protocol/error.rs and
--     handshake.rs (`CapabilitySet`, `ClientHello`, `HostHello`, `negotiate`, `handshake_response`).
--     The binary search of a capability is membership, since every set is made by sorting; the
--     failure of `all_query_capabilities` stands for the panic of its `expect`.
--   LocalRpc/Messages and Session: crates/next-infra-local-rpc/src/protocol/message.rs and mod.rs, and
--     src/session/session.rs of that crate. `receive` is one round of the loop of `serve_stream`; `Runs`
--     is any interleaving of that loop with the threads that it starts. A thread writes its
--     response before it drops its permit. The answers of queries are a parameter.
--   Inference: crates/next-infra-inference/src/lib.rs. Candidates has `normalize_candidate` and
--     `inferred_relation`, Rows the versions and changes, Engine has `InferenceEngine::run`, which plans
--     the run against the store as it is, and then writes the commit of its plan.
--   Query: crates/next-infra-query/src. Dto and its parts are dto/mod.rs, Limits has the limits and
--     cursors of service.rs, and Service its ten requests, which plan, ask the source and answer. The
--     source of the snapshots is a parameter.
--   Runtime: crates/next-infra-runtime/src/lib.rs. Scheduler has `Scheduler`, Machine has `Runtime`
--     with `start`, `sleep`, `wake`, `stop` and `plan_due` over any backend, and Sqlite the backend that
--     drains the queue of Sync/Writer.
--   Desktop/Lifecycle: apps/desktop/src-tauri/src/host/lifecycle.rs. `dispatch` answers the effects of
--     an event; `react` is its match.
--   McpBridge: `ensure_host` of apps/mcp-bridge/src/availability/state.rs. Action is its `?` over a world
--     that other processes change too; Availability has the call, with the loop as `wait`, the launch as
--     `launch_verified`, and what follows the launch as `await_host`. The connector, verifier, launcher
--     and clock, and the reads of the marker and the record, are the parameter `Surroundings`.
--   Each Tests module: the theorems of its part at concrete inputs.
--
-- How the code is read:
--   The store traits are records of operations over a type of stores and a type of errors. They are
--     parameters of every definition that uses them, so the theorems hold of any store. A method on
--     `&mut self` returns its result and the store that it leaves.
--     `Result` and `?` are `Result` and `do`. A panic is `none`.
--   A newtype over a checked string is its text; its constructor is the check.
--   Loops are recursion on the list that they go through. Two run on fuel: the digits of a number, whose
--     fuel is one more than the number, and the loop of `ensure_host`. Its fuel is one more than
--     the time limit in nanoseconds, which is enough since every round sleeps for one at least.
--     `u64` counts wrap at 2 ^ 64, as an unchecked `+=` does in a release build, and the `u8` counts of
--     absences saturate at 255.
--   A clone is the value.
--
-- Not modelled: the SQLite store behind the traits with its migrations and projections, and the query
-- source that reads it; the connectors and their network code; the deadlines of the local rpc's
-- streams; the MCP server; the driver thread of scheduled syncs and the rest of the desktop application;
-- the user interface. The store is reached by SQL, and the others are calls of the network, of the
-- operating system or of the application's framework.
pub mod Base
pub mod Core
pub mod ConnectorApi
pub mod Normalizer
pub mod Sync
pub mod Binding
pub mod LocalRpc
pub mod Inference
pub mod Query
pub mod Runtime
pub mod Desktop
pub mod McpBridge
