-- ===== src/Lib.antt =====
-- ThreatForge: the collection and alerting core with its worker, its secrets and the promotion of what
-- it finds, invites, and the brand score.
--
-- Updates of a messaging provider enter through a connection (a bot) and a source (a chat) of a
-- tenant. app/collection/ingest.py stores each update as an event, in one transaction with the
-- cursor of the connection; app/collection/analysis.py hands the events to workers under a lock;
-- app/collection/intelligence_analysis.py promotes what an
-- analysis finds to a finding and a case; it is announced through the outbox of app/collection/outbox.py and
-- app/collection/service.py; app/collection/retention.py clears old events. A cycle of
-- app/collection/worker.py polls each connection through the provider that app/collection/registry.py
-- holds and ingests its batch; app/collection/secrets.py keeps the credentials out of the tables.
--
-- Files:
--   Common: names of the libraries, passed on; Boolean tests, queries and updates of tables,
--     texts, results that may be an error.
--   Models: the rows of app/models.py as records and the vocabularies of
--     app/collection/states.py as enumerations; JSON values and dicts; sample rows.
--   Queue: app/collection/analysis.py and `next_backoff` of app/collection/outbox.py. `acquire`,
--     `acquire_next`, `complete`, `fail` and `queue_stats` are the functions of those names. Under
--     Queue: Backoff (delays), Acquire and Next (what a worker gets), Holder (who may end an
--     analysis), Stats (counters), Workers (sequences of calls).
--   Outbox: app/collection/outbox.py and the alert part of app/collection/service.py: the payload
--     contract, the dedup key, `enqueue_alert`, `mark_delivered`, `mark_failed`, and the channel
--     operations. Theorems in Payload, Enqueue, KeyApart and Reuse.
--   Verify: the TF-VERIFY messages of app/collection/verify.py, with the search of the regular
--     expression written out as `search_from`, `match_here` and `group`.
--   Ingest: app/collection/ingest.py, the envelope of app/collection/envelope.py, the contract of
--     app/collection/contracts.py and the handshake of app/collection/service.py. Under Ingest:
--     Raw, Handshake and Rows (definitions); theorems in Effect, Atomic, Cursor, Replay, Custody,
--     Confirm and Answer.
--   Connections: the connections, the sources and the opening of a handshake of
--     app/collection/service.py, with the unique indexes of app/models.py. Under Connections:
--     Health, Sources and Create (definitions), Bound, Closed, Telemetry, Issued (theorems).
--   Secrets: app/collection/secrets.py. Under Secrets: Urls (the URLs with tokens, with their regular
--     expressions matched by hand), Classify (`classify_payload`), References (`validate_opaque_ref`)
--     and Resolver (the two resolvers over one interface, `persist_secrets`, `resolve_secret`);
--     theorems in Clean, Faithful (the laws of a resolver), Memory, Plain.
--   Setup: `create_connection`, `create_alert_channel` and the resolving of their secrets, of
--     app/collection/service.py, with the unique indexes on the live names. Theorems in Clean,
--     Resolve and Readable.
--   Registry: app/collection/registry.py. Registry/Refines compares the dict with a finite map.
--   Worker: app/collection/worker.py and the diagnostics of app/collection/runtime.py. Under Worker:
--     Failures, Telemetry and Loop (definitions; `step` is one pass of the loop over a batch); theorems
--     in Keeps and Steps (invariants of a cycle), Isolation, Polls, Counts, Halted.
--   Similarity: `levenshtein` of app/brand/similarity.py; Similarity/Distance and Similarity/Least
--     compare it with the cost of an edit script.
--   Intelligence: app/collection/intelligence_analysis.py: `bind_approved_target` (what a classifier's
--     result may name) and `promote` (the finding and the case that it becomes). Under Intelligence:
--     Rows, Targets, Details, Promote (definitions); theorems in Approved, Kept, Reuse. The result is
--     the record that `_safe_result` returns.
--   Typosquat: app/brand/typosquat.py; Typosquat/Candidates is about what `generate` returns.
--   Features: app/features.py, the gate of paid features.
--   Retention: app/collection/retention.py.
--   Invites: app/invites.py, with the password policy of app/security.py.
--   BrandScore: app/brand/scoring.py, with the lures of app/brand/typosquat.py.
-- The module Tests of each part holds runs at concrete tables and the theorems at them.
--
-- State: a table is a list of rows, newest first, and an operation takes the table and returns its
-- result with the new table. A call that raises returns `err`; where the code rolls back, the old
-- table is returned with it. What other transactions commit between a lookup and the flush is an
-- argument (`arrived`, `Weather`). Several workers are a list of calls, in any order
-- (`Workers.run`), each of which is one transaction: `complete` and `fail` check the row as it is in the
-- table when they are called.
--
-- Numbers: times are microseconds on the natural numbers; ids and counters are natural numbers.
-- Every loop of the code runs over a finite list or a text and is structural recursion, so no
-- function needs fuel.
--
-- Parameters: sha256, json.dumps, str of a container, the datetime parsers and the letters beyond
-- ASCII (`Runtime`); str.lower and the normalisation of provider names; the callbacks of a
-- provider (`Provider`, `CollectionProvider`); the SKIP LOCKED view of other sessions' locks in
-- `acquire_next`; the interpreter's Unicode tables (`Unicode`), urlsplit, the environment and the
-- files of secrets (`SecretWorld`). What a worker's cycle reads of the world is `Env`, and each update
-- of a batch has its own `Turn`.
--
-- Not modelled: the process around the worker's cycle, the sanitising of a classifier's raw
-- result, the envelope that is built for it and the loop over the analysis queue, the exposure
-- and credential parts, the other scores, which are fractions, and the HTTP, mail, connector and
-- export code, which is I/O around other libraries. JSON numbers are natural numbers: fractions
-- and negative numbers do not occur in what the modelled code computes with. Relationships that
-- a foreign key enforces are not repeated.
pub mod Common
pub mod Models
pub mod BrandScore
pub mod Connections
pub mod Features
pub mod Ingest
pub mod Intelligence
pub mod Invites
pub mod Outbox
pub mod Queue
pub mod Registry
pub mod Retention
pub mod Secrets
pub mod Setup
pub mod Similarity
pub mod Typosquat
pub mod Verify
pub mod Worker
