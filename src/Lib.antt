-- ===== src/Lib.antt =====
-- UsageKit for MCP: what a tool call costs, and how its usage reaches a billing provider.
--
-- The program meters calls of MCP servers. A sidecar (crates/mcp-usage-edge) admits a request or
-- refuses it; a Tower layer (crates/mcp-usage-tower) classifies and authenticates it, forwards it,
-- and accounts for the terminal response; the rules of what is charged are in crates/mcp-usage-core;
-- recorded usage is buffered and exported off the request path by crates/mcp-usage-export. A benchmark
-- (crates/mcp-overbilling) compares the bill with that of a counter of requests.
--
-- Core.*, of crates/mcp-usage-core/src: Method (method.rs), Json (the document model of the JSON
-- package), Price (price.rs), Peek (peek.rs), Charge (charge.rs), Limits (limits.rs), Version
-- (version.rs), Name (name.rs) and Legacy (legacy.rs). These are pure functions, translated one by
-- one under their own names.
--
-- Export.*, of crates/mcp-usage-export/src: Buffer is `UsageBuffer` of lib.rs, with `record_event`
-- for its `record`; Pipeline is `BillingPipeline` with `begin_flush` and `finish_flush` for the two
-- halves of `flush` around the exporter; MeterEvent is meter_event.rs, with the lease and the export
-- in MeterEvent/Lease; Billing composes the pipeline with that exporter. State is a record, and an
-- operation returns its answer with the next state.
--
-- Tower.*, of crates/mcp-usage-tower/src: Service is `MeterService::call` of layer.rs up to the
-- origin, and in Service/Finish the caching that ends `Completion::finish`. It composes Classify
-- (classify.rs and the classification in layer.rs), Credential (`extract_api_key` and
-- `refuse_credential` of layer.rs, `AuthFailureLimit` of auth.rs), Deferred (deferred.rs), Inspect
-- (the request side of cache.rs) and Cache (`ResponseCache` of cache.rs). Body is `ObservedBody`
-- and `collect_request_body` of layer.rs, with what a poll of the inner body and of the accounting
-- gives as inputs; Terminal is `terminal_response` of layer.rs with the lines of an event stream;
-- Completion is the rest of `Completion::finish`; Task is the in-memory store of task.rs; Tenants
-- is the hash of a key, its strength and the tenant table of auth.rs.
--
-- Overbilling.*, of crates/mcp-overbilling/src: Meters has the two meters of meters.rs.
--
-- Edge.*, of crates/mcp-usage-edge/src: Admission is the decision of admission.rs. Timestamp is
-- `chrono_lite` of mpp.rs, the calendar in which an expiry is written. Payment is the rest of mpp.rs:
-- Payment/Challenge has the challenge and the credential, Payment/Verify issues and verifies, with
-- `begin_verify` and `finish_verify` for the two halves of `verify` around the payment method, and
-- Payment/History lets many verifications run side by side. Replay is the trait of replay.rs as a
-- record of operations and laws, which the in-memory store fills, and `ReplayGuard` of mpp.rs; the
-- laws leave a backend its own names for keys, and a grain by which a reservation may end early.
-- ControlPlane is control_plane.rs; its exporter is composed with Export.MeterEvent. Transport is the
-- checks and the deadline of transport.rs, with the polls of a body as a list.
--
-- Prelude holds what the others share: Rust strings as their UTF-8 bytes, maps as association lists
-- (Assoc, Entries) and sets as lists (Sets), checked and saturating 64-bit arithmetic, Boolean tests.
--
-- Concurrency: each mutex makes an operation atomic, and no operation panics under its lock, so
-- poisoning does not occur and a history is a list of operations. Where the code awaits, an operation
-- is two steps, and other steps come between; so it is where `refuse_credential` takes its lock twice,
-- and where `verify` reads the wall clock before the store reads its own. Time is read by an operation and is an argument of it.
--
-- Bounds: a queue bounds each eviction loop, so these are structural recursion and need no fuel;
-- `drain` counts its rounds, and two are enough. The loops of `format` over years and months take one
-- more round than there are days, which is enough since each takes a day at least; `sse_lines` takes
-- one more than there are bytes, since each line but the last takes a byte at least. Machine words
-- are numbers with the checked or saturating operation that the code calls; the generation of a
-- stored task wraps at 2 ^ 128.
--
-- Parameters, for code of other packages: the Base64 codec with its round trip, HMAC and SHA-256,
-- the JSON writer and reader with their round trips (elsewhere a body is the document it parses to),
-- the derived reader of `LeanRequest`, what a parked completion does to the cache,
-- the UUIDs that name events, nonces and owners, the header map, the hash of an API key, the answers
-- of the billing provider, of the payment method and of the control plane, and at the admission gate
-- the control plane's cache entry.
--
-- Not modelled: the facilitator's client and the Redis replay store, configuration and proxying of
-- the sidecar, the Redis and PostgreSQL stores, metrics export, composite exporters, and
-- everything outside crates/. They are input and output, or build on packages that are not here.
pub mod Prelude
pub mod Core
pub mod Export
pub mod Tower
pub mod Edge
pub mod Overbilling
