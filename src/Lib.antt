-- ===== src/Lib.antt =====
-- FluxLens takes events from change streams, webhooks and Kafka, selects digests of them for an
-- operator, raises alerts, asks a language model for suggestions inside guardrails, and records
-- every decision and every operator action in a hash-chained audit log.
--
-- The parts and their files. Paths of the program are relative to the repository's root.
--   AuditLog      internal/auditlog/chain.go and store.go. AuditLog.Record is the record and its
--                 hash (canonicalBytes, computeHashWithPrev), AuditLog.Chain the state of Chain with
--                 Append, Verify, VerifyRecords, Len and Snapshot, AuditLog.Store the interface Store
--                 with the laws that its clients rely on. Chain.Links, Chain.Invariant and
--                 Chain.Tampering hold the proofs. AuditLog.Factory is internal/auditlog/factory.
--                 AuditLog.Postgres is internal/auditlog/postgres/store.go: Open, Append, Verify, Len,
--                 Snapshot over the four statements of a database (Law, Writer, Opening: a log
--                 with one writer; Refines: the store against Chain; Limits, Micros: what the schema of
--                 deploy/postgres-init does to it).
--   Canonical     internal/canonical/event.go: Event, NewEvent, Validate, AgeAt, Severity.Rank.
--   Alerts        internal/alerts: the ring of alerts (Alerts.Store; add is Store.Add) and the rules
--                 that raise them (Alerts.Rules).
--   Curation      internal/curation/strategies.go: Select, the six strategies, the three scores.
--   Precedents    internal/precedents/match.go: FindMatches, with its decoding of payloads
--                 (Precedents.Decode) and its scan of the log (Precedents.Scan).
--   Llm           internal/llm/provider.go: the interface Provider; Llm.Mock is mock.go.
--   Orchestrator  internal/orchestrator: Guardrails (Orchestrator.Guards), Decide and
--                 RecordOperatorAction (Orchestrator.Decide) over the interface of the audit log.
--                 Orchestrator.Suggest is SuggestWithPrecedents, on top of FindMatches.
--                 Orchestrator.Readback relates what it records to what FindMatches decodes.
--                 Orchestrator.Branches gives the ways through Decide as an indexed family.
--   HttpAuth      internal/httpauth: API keys (apikey.go) and, in HttpAuth.Roles, roles (rbac.go),
--                 with the wiring of both in main of cmd/api-gateway/main.go.
--   Cdc.Mysql     internal/cdc/mysql/filter.go and map.go: the table filter, and the canonical events
--                 that row changes become. Cdc.Mysql.Connector is connector.go: New, the loop of Run,
--                 the heartbeats, Stats.
--   Cdc.Postgres  internal/cdc/postgres/connector.go: New, the table filter, mapMessage and the loop of
--                 Run (Cdc.Postgres.Stream), ensurePublication (Cdc.Postgres.Publication).
--   StreamHub     internal/stream/hub.go: the hub's clients, broadcasts and drops.
--   KafkaBridge   internal/kafkabridge/consumer.go: the three consumers.
--   Gateway       cmd/api-gateway/main.go and gateway_live.go: the server's state and addRecent,
--                 findEvent, observeAudit (Gateway), the bodies of requests and answers
--                 (Gateway.Bodies), the handlers (Gateway.Handlers, Gateway.Operator, Gateway.Live),
--                 the routes with the middlewares around them (Gateway.Routes). Gateway.Reachable is
--                 the step relation on the server's states.
--   Base          what Go's standard library and language provide: texts, JSON values, floats, sorts,
--                 regular expressions, times, maps.
-- The orchestrator appends to an audit store, precedents are read back from the store's snapshot,
-- digests and ingested events feed the rules for alerts, and those feed the ring of alerts. The
-- gateway owns an orchestrator, a store and a ring of alerts, and is fed by requests and by the
-- callbacks of the Kafka bridge.
--
-- Numbers and times. Times are nanoseconds as natural numbers, not after the year 9999, up to which
-- Go encodes them; differences are clamped as time.Time.Sub does. uint64 sequence numbers wrap at
-- 2^64. A Go int whose sign the code tests is ℤ with pos and negsuc. A float64 is NaN, an infinity
-- or a whole number of units of 2^-1074, so that comparisons are exact.
--
-- Parameters. The JSON text of a value, the RFC 3339 text of a time, SHA-256 in hexadecimal,
-- Unicode's case tables, float64 arithmetic, the verbs of fmt, the order of a map range, the PRNG's
-- shuffle, sort.Slice and the statements of the database are arguments. Theorems that need a fact
-- about one of them name it: a range and a shuffle keep the elements, sort.Slice returns an ordered
-- permutation, the canonical bytes of a record determine the predecessor's hash and the record's
-- time, case folding keeps lower-case names, an insert that succeeds adds its row and one that
-- reports an error adds none (a timeout can leave that open in practice), a time column keeps
-- microseconds. Clock readings, fresh identifiers, a model's replies, what json and strconv make of
-- a request, and what the Kafka and the replication libraries return are arguments of the
-- operations that read them.
--
-- Locks. A method that holds its mutex throughout is one step on the state. Decide reads the head
-- of the log and appends in two steps; what other callers do in between is a part of Surroundings.
-- In the gateway's step relation a request, or a message of the Kafka bridge, is one step; the two
-- handlers for suggestions take the Surroundings of their call as an argument. The size of the
-- recent list is not negative. A MySQL heartbeat is sent between two rounds of Run. A step of a
-- connector whose events the channel did not all take is the last of its run.
--
-- Loops are structural recursion. The swaps of the alert store's Snapshot run on fuel, the length
-- of the buffer, which covers every round since the two indices close in on each other.
--
-- Not modelled: the hub's sockets, MySQL's DSN and the query for the master's position, the start
-- of PostgreSQL's replication, the OpenAI provider, domain packs, metrics and the main packages
-- other than the gateway's. Invalid UTF-8 and slices beyond memory are left out.
pub mod Base
pub mod AuditLog
pub mod Canonical
pub mod Alerts
pub mod Precedents
pub mod Curation
pub mod Llm
pub mod Orchestrator
pub mod HttpAuth
pub mod Cdc
pub mod KafkaBridge
pub mod Gateway
pub mod StreamHub
