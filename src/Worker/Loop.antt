-- ===== src/Worker/Loop.antt =====
-- The updates of one batch, in app/collection/worker.py: what a cycle reads of the world, and the
-- loop over the updates with its counters.
use threatforge.Common.{
  ℕ, suc, ◌+◌, String, Bool, true, false, ◌&&◌, Option, none, some, List, [], ◌∷◌, Result, ok, err,
  ◌==◌, str_eq, update, is_none, if◌then◌else◌,
}
use threatforge.Models.{
  Time, Json, Dict, Connection, ConnectionStatus, Source, SourceStatus, lookup, text_of,
}
use threatforge.Outbox.{not_found}
use threatforge.Connections.{CallError, service, get_connection}
use threatforge.Ingest.{
  Runtime, ProviderError, NormalizedUpdate, IngestError, infrastructure, IngestResult, Outcome, Db,
  Weather, ingest_update,
}
use threatforge.Worker.Failures.{ProviderFailure}
use threatforge.Worker.Telemetry.{BatchHealth}

-- `provider.poll` raises or returns a batch.
pub record Batch : Type 0 where
  pub updates : List (Dict Json)
  pub health : BatchHealth

pub record CollectionProvider : Type 0 where
  pub poll : String → Option String → Dict Json → Result ProviderFailure Batch
  -- the name of the exception's class, or the reference
  pub source_ref : Dict Json → Result String (Option String)
  pub normalize : Dict Json → Result ProviderError NormalizedUpdate

-- The transaction of the update at one position: its time, the id that the database draws, and what
-- others do meanwhile.
pub record Turn : Type 0 where
  pub now : Time
  pub new_id : ℕ
  pub weather : Weather

pub record Env : Type 0 where
  pub run : Runtime
  pub providers : String → Option CollectionProvider
  pub turns : ℕ → Turn
  -- the time of the writes that are no ingestion, and its text
  pub now : Time
  pub iso_now : String
  -- `datetime.isoformat`, and `int` of a text, which is 0 below zero and where it raises
  pub iso : Time → String
  pub int_of_text : String → ℕ

pub record Store : Type 0 where
  pub db : Db
  pub sources : List Source

-- What a cycle raises.
pub data WorkerError : Type 0 where
  service_raised : CallError → WorkerError
  ingest_raised : IngestError → WorkerError
  reference_raised : String → WorkerError

pub data CycleStatus : Type 0 where
  disabled failed completed : CycleStatus

pub record Tally : Type 0 where
  pub processed : ℕ
  pub deduplicated : ℕ
  pub rejected : ℕ
  pub ignored : ℕ

pub record WorkerOutcome : Type 0 where
  pub connection_id : ℕ
  pub status : CycleStatus
  pub tally : Tally
  pub cursor : Option String
  pub error_code : String

-- How the loop over the updates ends.
pub data LoopEnd : Type 0 where
  finished interrupted : Tally → LoopEnd
  raised : WorkerError → LoopEnd

abbrev pub nothing_done : Tally
nothing_done = record { processed = 0; deduplicated = 0; rejected = 0; ignored = 0 }

abbrev pub is_active : ConnectionStatus → Bool
is_active ConnectionStatus.active = true
is_active _ = false

abbrev pub is_source_active : SourceStatus → Bool
is_source_active SourceStatus.active = true
is_source_active _ = false

-- The connection may be polled.
abbrev pub is_pollable : Connection → Bool
is_pollable c = is_none c.deleted_at && (c.enabled && is_active c.status)

-- `active_by_ref.get(ref)`: of several sources with one reference the last is kept.
unfoldable pub active_by_ref : String → List Source → Option Source
active_by_ref ref [] = none
active_by_ref ref (s ∷ sources) = elim (active_by_ref ref sources) [
  | some later ↦ some later
  | none ↦
      if str_eq s.source_ref ref
        && (s.enabled && (is_source_active s.status && is_none s.deleted_at))
      then some s
      else none
]

-- `_cursor`
abbrev pub update_cursor : (Json → String) → Option Json → Option String
update_cursor repr none = none
update_cursor repr (some Json.null) = none
update_cursor repr (some v) = some (text_of repr v)

abbrev pub counted : Outcome → Tally → Tally
counted Outcome.deduplicated t = record t { deduplicated = t.deduplicated + 1 }
counted Outcome.rejected t = record t { rejected = t.rejected + 1 }
counted Outcome.normalized t = record t { processed = t.processed + 1 }
counted Outcome.control t = record t { processed = t.processed + 1 }

abbrev pub skipped : Tally → Tally
skipped t = record t { ignored = t.ignored + 1 }

abbrev pub with_connections : List Connection → Store → Store
with_connections rows st = record st { db = record st.db { connections = rows } }

module _ (env : Env) (tenant id : ℕ) where
  abbrev pub connection_of : Store → Option Connection
  connection_of st = get_connection tenant id st.db.connections

  abbrev pub move_cursor : String → Connection → Connection
  move_cursor v c = record c { cursor = some v; updated_at = env.now }

  abbrev pub ignore_at : String → Tally → Store → Option Connection → LoopEnd × Store
  ignore_at v t st none = (raised (service_raised (service not_found)), st)
  ignore_at v t st (some c) = (
    finished (skipped t),
    with_connections (update (λ x. x.id == c.id) (move_cursor v) st.db.connections) st,
  )

  -- `_advance_ignored`, for an update of no active source.
  abbrev pub ignore_update : Option String → Tally → Store → LoopEnd × Store
  ignore_update none t st = (finished (skipped t), st)
  ignore_update (some v) t st = ignore_at v t st (connection_of st)

  abbrev pub after_ingest : Tally → Store → Result IngestError IngestResult × Db → LoopEnd × Store
  after_ingest t st (ok res, db) = (finished (counted res.outcome t), record st { db = db })
  after_ingest t st (err infrastructure, db) = (interrupted t, record st { db = db })
  after_ingest t st (err e, db) = (raised (ingest_raised e), record st { db = db })

  module _ (p : CollectionProvider) (active : List Source) where
    abbrev pub take_update : Turn → Dict Json → Tally → Store → Option Source → LoopEnd × Store
    take_update turn raw t st none =
        ignore_update (update_cursor env.run.repr (lookup "update_id" raw)) t st
    take_update turn raw t st (some s) = after_ingest t st (
        ingest_update env.run (record { validator = none; normalizer = p.normalize }) turn.now
          turn.new_id turn.weather s raw st.db)

    -- `str(provider.source_ref(raw) or "")`
    abbrev pub text_or_empty : Option String → String
    text_or_empty none = ""
    text_or_empty (some t) = t

    abbrev pub step_at :
        Turn → Dict Json → Tally → Store → Result String (Option String) → LoopEnd × Store
    step_at turn raw t st (err name) = (raised (reference_raised name), st)
    step_at turn raw t st (ok ref) =
        take_update turn raw t st (active_by_ref (text_or_empty ref) active)

    unfoldable pub step : Turn → Dict Json → Tally → Store → LoopEnd × Store
    step turn raw t st = step_at turn raw t st (p.source_ref raw)

    abbrev pub proceed : (Tally → Store → LoopEnd × Store) → LoopEnd × Store → LoopEnd × Store
    proceed rest (finished t, st) = rest t st
    proceed rest (interrupted t, st) = (interrupted t, st)
    proceed rest (raised e, st) = (raised e, st)

    -- The loop over the updates of the batch.
    unfoldable pub take_all : List (Dict Json) → ℕ → Tally → Store → LoopEnd × Store
    take_all [] i t st = (finished t, st)
    take_all (raw ∷ raws) i t st = proceed (take_all raws (suc i)) (step (env.turns i) raw t st)
