-- ===== src/Ingest.antt =====
-- app/collection/ingest.py, with the fingerprint of app/collection/envelope.py. An update is
-- ingested in one transaction over the tables; what Python's own libraries compute is in `Runtime`.
mod Raw
mod Handshake
mod Rows
pub mod Effect
pub mod Atomic
pub mod Custody
pub mod Cursor
pub mod Confirm
pub mod Answer
mod Tests
pub mod Replay
unfoldable pub use Raw.*
unfoldable pub use Handshake.*
unfoldable pub use Rows.*
use threatforge.Common.{
  ℕ, String, Bool, true, false, not, ◌&&◌, ◌||◌, Option, none, some, List, [], ◌∷◌, ◌++◌, Result,
  ok, err, ◌==◌, str_eq, find?, update, is_some, is_none, take_text, if◌then◌else◌,
}
use threatforge.Models.{
  Time, Json, Dict, Event, EventState, Connection, ConnectionStatus, Source, SourceStatus,
  TestRequest,
}
use threatforge.Verify.{parse_verify_nonce, nonce_hash}

pub data IngestError : Type 0 where
  not_allowed infrastructure : IngestError
  provider_raised : String → IngestError

pub data Outcome : Type 0 where
  normalized control rejected deduplicated : Outcome

pub record IngestResult : Type 0 where
  pub outcome : Outcome
  pub event_id : ℕ
  pub cursor : Option String
  pub envelope : Option Envelope

pub record Db : Type 0 where
  pub connections : List Connection
  pub events : List Event
  pub requests : List TestRequest

-- What befalls the transaction: the rows that other transactions commit before its flush, and
-- whether the database fails.
pub record Weather : Type 0 where
  pub arrived : List Event
  pub broken : Bool

abbrev pub connection_id : Connection → ℕ
connection_id c = c.id

-- `_resolve_active_pair`
abbrev pub owns : Source → Connection → Bool
owns s c = (c.id == s.connection_id) && (c.tenant_id == s.tenant_id)

unfoldable pub is_live : Connection → Source → Bool
is_live c s =
    not (is_some c.deleted_at || (not c.enabled || is_revoked c.status))
    && not (is_some s.deleted_at || (not s.enabled || is_source_revoked s.status))

abbrev active_pair : Source → Option Connection → Result IngestError Connection
active_pair s none = err not_allowed
active_pair s (some c) = if is_live c s then ok c else err not_allowed

unfoldable pub resolve_active_pair : Db → Source → Result IngestError Connection
resolve_active_pair db s = active_pair s (find? (owns s) db.connections)

-- `_find_existing_event`
unfoldable pub find_existing : Source → String → List Event → Option Event
find_existing s hash events =
    if str_eq hash "" then none else find? (same_update s.tenant_id s.id hash) events

-- `_advance_cursor`
abbrev pub advance_cursor : Time → Option String → Connection → Connection
advance_cursor now none c = record c { updated_at = now }
advance_cursor now (some v) c = record c { cursor = some v; updated_at = now }

abbrev pub with_arrived : Weather → Db → Db
with_arrived w db = record db { events = w.arrived ++ db.events }

-- The transaction that adds the event, moves the cursor of the connection and commits.
unfoldable pub commit_event :
    Time → Weather → Connection → Option String → Event → List TestRequest → Db → Db
commit_event now w c cursor ev requests db = record {
  connections = update (λ x. x.id == c.id) (advance_cursor now cursor) db.connections;
  events = ev ∷ (w.arrived ++ db.events);
  requests = requests;
}

-- The unique index `uq_coll_event_external` refuses the row.
unfoldable pub violates : Source → Event → List Event → Bool
unfolding find_existing
violates s ev rows =
    not (is_rejected ev.processing_state) && is_some (find_existing s ev.external_id_hash rows)

abbrev done : Outcome → Event → Time → Option String → Connection → Option Envelope → IngestResult
done outcome ev now cursor c envelope = record {
  outcome = outcome;
  event_id = ev.id;
  cursor = (advance_cursor now cursor c).cursor;
  envelope = envelope;
}

abbrev pub seen_before : Connection → Event → IngestResult
seen_before c e = record {
  outcome = deduplicated;
  event_id = e.id;
  cursor = c.cursor;
  envelope = none;
}

-- A database error, or a row that the unique index refuses, rolls back.
unfoldable pub store :
    Outcome
    → Time
    → Weather
    → Source
    → Connection
    → Option String
    → Event
    → List TestRequest
    → Db
    → Result IngestError IngestResult × Db
store outcome now w s c cursor ev requests db =
    if w.broken || violates s ev (w.arrived ++ db.events)
    then (err infrastructure, with_arrived w db)
    else (ok (done outcome ev now cursor c none), commit_event now w c cursor ev requests db)

-- The row that a concurrent replay has committed, if that is why the index refused this one.
abbrev pub or_replay : Connection → Option Event → Result IngestError IngestResult
or_replay c none = err infrastructure
or_replay c (some e) = ok (seen_before c e)

unfoldable pub store_normalized :
    Time
    → Weather
    → Source
    → Connection
    → Option String
    → Envelope
    → Event
    → List TestRequest
    → Db
    → Result IngestError IngestResult × Db
store_normalized now w s c cursor envelope ev requests db =
    if w.broken
    then (err infrastructure, with_arrived w db)
    else if violates s ev (w.arrived ++ db.events)
    then (
      or_replay c (find_existing s ev.external_id_hash (w.arrived ++ db.events)),
      with_arrived w db,
    )
    else (
      ok (done normalized ev now cursor c (some envelope)),
      commit_event now w c cursor ev requests db,
    )

module _ (run : Runtime) (provider : Provider) where
  open run use {sha256, repr}

  abbrev pub external_hash : Option String → String
  external_hash none = ""
  external_hash (some v) = sha256 v

  -- `_record_rejection`
  unfoldable pub record_rejection :
      Time
      → ℕ
      → Weather
      → Source
      → Connection
      → Option String
      → String
      → List TestRequest
      → Db
      → Result IngestError IngestResult × Db
  record_rejection now new_id w s c cursor reason requests db =
      store rejected now w s c cursor
        (rejected_event now new_id s (external_hash cursor) (take_text 60 reason)) requests db

  abbrev pub normalize_valid :
      Time
      → ℕ
      → Weather
      → Source
      → Connection
      → Option String
      → List TestRequest
      → Db
      → Result ProviderError NormalizedUpdate
      → Result IngestError IngestResult × Db
  normalize_valid now new_id w s c cursor requests db (err (unexpected name)) =
      (err (provider_raised name), db)
  normalize_valid now new_id w s c cursor requests db (err (invalid name)) =
      record_rejection now new_id w s c cursor name requests db
  normalize_valid now new_id w s c cursor requests db (ok nu) =
      let hash = if str_eq nu.external_id "" then external_hash cursor else sha256 nu.external_id in
      store_normalized now w s c cursor (envelope_of run s nu)
        (normalized_event run now new_id s hash nu) requests db

  -- The flow of a message that is no control message: validate, normalize, persist.
  unfoldable pub ingest_normal :
      Time
      → ℕ
      → Weather
      → Source
      → Dict Json
      → Connection
      → Option String
      → List TestRequest
      → Db
      → Result IngestError IngestResult × Db
  ingest_normal now new_id w s raw c cursor requests db =
      normalize_valid now new_id w s c cursor requests db (validated provider raw)

  abbrev pub ingest_control :
      Time
      → ℕ
      → Weather
      → Source
      → Dict Json
      → Connection
      → Option String
      → String
      → Db
      → Option TestRequest × List TestRequest
      → Result IngestError IngestResult × Db
  ingest_control now new_id w s raw c cursor hash db (none, requests) =
      ingest_normal now new_id w s raw c cursor requests db
  ingest_control now new_id w s raw c cursor hash db (some r, requests) =
      store control now w s c cursor
        (control_event run now new_id s (external_hash cursor) hash raw)
        (confirm_test_request now (telemetry_of hash) r.id requests) db

  abbrev pub ingest_new :
      Time
      → ℕ
      → Weather
      → Source
      → Dict Json
      → Connection
      → Option String
      → Db
      → Option String
      → Result IngestError IngestResult × Db
  ingest_new now new_id w s raw c cursor db none =
      ingest_normal now new_id w s raw c cursor db.requests db
  ingest_new now new_id w s raw c cursor db (some nonce) =
      let hash = nonce_hash sha256 nonce in
      ingest_control now new_id w s raw c cursor hash db
        (find_matching_test_request now s.tenant_id c.id (some s.id) hash db.requests)

  -- A replay is answered with the event that is there.
  abbrev pub ingest_active :
      Time
      → ℕ
      → Weather
      → Source
      → Dict Json
      → Connection
      → Db
      → Option Event
      → Result IngestError IngestResult × Db
  ingest_active now new_id w s raw c db (some e) = (ok (seen_before c e), db)
  ingest_active now new_id w s raw c db none =
      ingest_new now new_id w s raw c (extract_cursor repr raw) db
        (parse_verify_nonce run.wide (extract_text raw))

  abbrev pub ingest_resolved :
      Time
      → ℕ
      → Weather
      → Source
      → Dict Json
      → Db
      → Result IngestError Connection
      → Result IngestError IngestResult × Db
  ingest_resolved now new_id w s raw db (err e) = (err e, db)
  ingest_resolved now new_id w s raw db (ok c) =
      ingest_active now new_id w s raw c db
        (find_existing s (external_hash (extract_cursor repr raw)) db.events)

  unfoldable pub ingest_update :
      Time → ℕ → Weather → Source → Dict Json → Db → Result IngestError IngestResult × Db
  ingest_update now new_id w s raw db =
      ingest_resolved now new_id w s raw db (resolve_active_pair db s)
