-- ===== src/Worker.antt =====
-- app/collection/worker.py: one cycle over a connection, and over all of them. The loop that repeats
-- the cycle, the process' exit codes and the heartbeat are outside the tables. What the cycle reads
-- of the world is in `Env`.
mod Failures
mod Telemetry
mod Loop
unfoldable pub use Failures.*
unfoldable pub use Telemetry.*
unfoldable pub use Loop.*
pub mod Keeps
pub mod Steps
pub mod Isolation
mod Polls
pub mod Counts
pub mod Halted
mod Tests
use threatforge.Common.{
  ℕ, suc, ◌+◌, max, String, Bool, true, false, not, ◌&&◌, ◌||◌, Option, none, some, List, [], ◌∷◌,
  ◌++◌, Result, ok, err, ◌==◌, str_eq, find?, select, order_by, update, is_some, is_none,
  if◌then◌else◌,
}
use threatforge.Models.{
  Time, Json, Dict, Connection, ConnectionStatus, Source, SourceStatus, lookup, merge, insert,
  text_of,
}
use threatforge.Outbox.{not_found}
use threatforge.Connections.{
  CallError, service, get_connection, list_sources, connection_health, set_connection_health,
}
use threatforge.Ingest.{
  Runtime, ProviderError, NormalizedUpdate, IngestError, infrastructure, IngestResult, Outcome, Db,
  Weather, ingest_update,
}

module _ (env : Env) (tenant id : ℕ) where
  -- `set_connection_health`, commit, and the outcome with the connection as it is then.
  abbrev pub with_outcome :
      (Connection → WorkerOutcome)
      → Store
      → Result CallError Connection × List Connection
      → Result WorkerError WorkerOutcome × Store
  with_outcome outcome st (err e, rows) = (err (service_raised e), with_connections rows st)
  with_outcome outcome st (ok c, rows) = (ok (outcome c), with_connections rows st)

  abbrev pub write_health :
      Dict Json → (Connection → WorkerOutcome) → Store → Result WorkerError WorkerOutcome × Store
  write_health health outcome st =
      with_outcome outcome st (set_connection_health env.now tenant id health st.db.connections)

  abbrev pub outcome_of : CycleStatus → Tally → String → Connection → WorkerOutcome
  outcome_of status t code c = record {
    connection_id = id;
    status = status;
    tally = t;
    cursor = c.cursor;
    error_code = code;
  }

  abbrev pub failed_poll :
      Connection → Diagnostic → Store → Result WorkerError WorkerOutcome × Store
  failed_poll c d st =
      write_health
        (("state", Json.str d.state)
          ∷ ("checked_at", Json.str env.iso_now)
          ∷ ("error_code", Json.str d.code)
          ∷ ("retry_after_seconds", retry_json d.retry_after_seconds)
          ∷ [])
        (λ _. outcome_of failed nothing_done d.code c) st

  -- A failure before the poll.
  abbrev pub cannot_poll :
      Connection → String → String → Store → Result WorkerError WorkerOutcome × Store
  cannot_poll c state code st =
      write_health
        (("state", Json.str state)
          ∷ ("checked_at", Json.str env.iso_now)
          ∷ ("error_code", Json.str code)
          ∷ [])
        (λ _. outcome_of failed nothing_done code c) st

  abbrev pub close_interrupted :
      Tally → Store → Option Connection → Result WorkerError WorkerOutcome × Store
  close_interrupted t st none = (err (service_raised (service not_found)), st)
  close_interrupted t st (some c) =
      write_health
        (interrupted_health env.iso_now env.int_of_text t.processed t.deduplicated t.rejected
          t.ignored (connection_health c.config_json))
        (outcome_of failed t "ingest_infrastructure_error") st

  abbrev pub close_finished :
      BatchHealth → Tally → Store → Option Connection → Result WorkerError WorkerOutcome × Store
  close_finished told t st none = (err (service_raised (service not_found)), st)
  close_finished told t st (some c) =
      write_health
        (finished_health env.int_of_text t.processed t.deduplicated t.rejected t.ignored
          (event_metrics env.iso tenant id st.sources st.db.events)
          (connection_health c.config_json) (health_dict env.iso_now told))
        (outcome_of completed t "") st

  unfoldable pub close_cycle :
      BatchHealth → LoopEnd × Store → Result WorkerError WorkerOutcome × Store
  close_cycle told (raised e, st) = (err e, st)
  close_cycle told (interrupted t, st) = close_interrupted t st (connection_of env tenant id st)
  close_cycle told (finished t, st) = close_finished told t st (connection_of env tenant id st)

  abbrev pub after_poll :
      CollectionProvider
      → Connection
      → Store
      → Result ProviderFailure Batch
      → Result WorkerError WorkerOutcome × Store
  after_poll p c st (err e) = failed_poll c (provider_diagnostic e) st
  after_poll p c st (ok batch) = close_cycle batch.health (
      take_all env tenant id p (list_sources tenant (some id) st.sources) batch.updates 0
        nothing_done st)

  abbrev pub with_secret :
      CollectionProvider
      → Connection
      → Store
      → Option String
      → Result WorkerError WorkerOutcome × Store
  with_secret p c st none = cannot_poll c "unauthorized" "credential_unavailable" st
  with_secret p c st (some ref) =
      if str_eq ref ""
      then cannot_poll c "unauthorized" "credential_unavailable" st
      else after_poll p c st (p.poll ref c.cursor c.config_json)

  abbrev pub with_provider :
      Connection → Store → Option CollectionProvider → Result WorkerError WorkerOutcome × Store
  with_provider c st none = cannot_poll c "offline" "provider_unavailable" st
  with_provider c st (some p) = with_secret p c st (lookup "bot_token" c.secret_refs)

  abbrev pub run_connection : Store → Option Connection → Result WorkerError WorkerOutcome × Store
  run_connection st none = (err (service_raised (service not_found)), st)
  run_connection st (some c) =
      if not (is_pollable c)
      then (ok (outcome_of disabled nothing_done "" c), st)
      else with_provider c st (env.providers c.provider)

  unfoldable pub run_connection_once : Store → Result WorkerError WorkerOutcome × Store
  run_connection_once st = run_connection st (connection_of env tenant id st)

abbrev connection_key : Connection → ℕ
connection_key c = c.id

-- The connections that a cycle runs, in the order of their ids.
unfoldable pub due_connections : List Connection → List Connection
due_connections rows = order_by connection_key (select is_pollable rows)

abbrev with_first :
    WorkerOutcome
    → Result WorkerError (List WorkerOutcome) × Store
    → Result WorkerError (List WorkerOutcome) × Store
with_first o (err e, st) = (err e, st)
with_first o (ok os, st) = (ok (o ∷ os), st)

abbrev pub then_rest :
    (Store → Result WorkerError (List WorkerOutcome) × Store)
    → Result WorkerError WorkerOutcome × Store
    → Result WorkerError (List WorkerOutcome) × Store
then_rest rest (err e, st) = (err e, st)
then_rest rest (ok o, st) = with_first o (rest st)

-- The world of each connection's part of the cycle is its own.
unfoldable pub run_each :
    (ℕ → Env) → ℕ → List Connection → Store → Result WorkerError (List WorkerOutcome) × Store
run_each world k [] st = (ok [], st)
run_each world k (c ∷ rows) st =
    then_rest (run_each world (suc k) rows) (run_connection_once (world k) c.tenant_id c.id st)

unfoldable pub run_all_once : (ℕ → Env) → Store → Result WorkerError (List WorkerOutcome) × Store
run_all_once world st = run_each world 0 (due_connections st.db.connections) st
