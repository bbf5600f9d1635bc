-- ===== src/Queue.antt =====
-- app/collection/analysis.py, and `next_backoff` of app/collection/outbox.py.
-- The table of events is a list of rows. Each operation is a function of the time that
-- `utcnow` returned, and of the table after the session's flush; it returns the new table too.
mod Backoff
unfoldable pub use Backoff.*
pub mod Acquire
pub mod Next
pub mod Holder
pub mod Workers
pub mod Stats
mod Tests
use threatforge.Common.{
  ℕ, ◌+◌, ◌-◌, String, Bool, true, false, not, ◌&&◌, ◌||◌, Option, none, some, List, [], ◌∷◌,
  Result, ok, err, ltb, leb, ◌==◌, is_none, opt_eq, take_text, count, get_row, select, update,
  if◌then◌else◌,
}
use threatforge.Models.{Time, seconds, Json, Dict, Event, EventState}

-- `AnalysisError`, its subclasses `NotLockable` and `LockHeld`, and the reasons that they give.
pub data AnalysisError : Type 0 where
  not_found max_attempts_reached retry_not_due : AnalysisError
  not_analysable not_analyzing : EventState → AnalysisError
  lock_held : Option String → AnalysisError

-- `now - timedelta(seconds=lock_ttl_seconds)`
abbrev pub lock_cutoff : Time → ℕ → Time
lock_cutoff now ttl = now - seconds ttl

-- `next_attempt_at IS NULL OR next_attempt_at <= now`
abbrev pub retry_due : Time → Option Time → Bool
retry_due now none = true
retry_due now (some t) = leb t now

-- `locked_at IS NULL OR locked_at < cutoff`
abbrev pub lock_stale : Time → Option Time → Bool
lock_stale cutoff none = true
lock_stale cutoff (some t) = ltb t cutoff

abbrev ready_in : Time → Time → Option Time → Option Time → EventState → Bool
ready_in now cutoff next locked EventState.normalized = true
ready_in now cutoff next locked EventState.failed = retry_due now next
ready_in now cutoff next locked EventState.analyzing = lock_stale cutoff locked
ready_in now cutoff next locked _ = false

-- `_ready_predicate`
unfoldable pub is_ready : Time → Time → ℕ → Event → Bool
is_ready now cutoff max_attempts e =
    not e.is_control
    && (is_none e.purged_at
        && (ltb e.attempts max_attempts
            && ready_in now cutoff e.next_attempt_at e.locked_at e.processing_state))

-- The values of the compare-and-set.
unfoldable pub lock : String → Time → Event → Event
lock worker now e = record e {
  processing_state = EventState.analyzing;
  locked_by = some worker;
  locked_at = some now;
}

abbrev pub has_id : ℕ → Event → Bool
has_id id e = e.id == id

abbrev pub event_id : Event → ℕ
event_id e = e.id

abbrev pub get_event : ℕ → List Event → Option Event
get_event id rows = get_row event_id id rows

-- Why the compare-and-set touched no row.
refused_in : Time → Time → ℕ → Event → EventState → AnalysisError
refused_in now cutoff max_attempts e EventState.analyzing =
    if lock_stale cutoff e.locked_at
    then not_analysable EventState.analyzing
    else lock_held e.locked_by
refused_in now cutoff max_attempts e EventState.failed =
    if leb max_attempts e.attempts
    then max_attempts_reached
    else if retry_due now e.next_attempt_at
    then not_analysable EventState.failed
    else retry_not_due
refused_in now cutoff max_attempts e state = not_analysable state

unfoldable pub refused : Time → Time → ℕ → Option Event → AnalysisError
unfolding refused_in
refused now cutoff max_attempts none = not_found
refused now cutoff max_attempts (some e) = refused_in now cutoff max_attempts e e.processing_state

-- `db.refresh(event)` after the update
abbrev refreshed : Option Event → Result AnalysisError Event
refreshed none = err not_found
refreshed (some e) = ok e

unfoldable pub acquire :
    Time → ℕ → ℕ → ℕ → String → List Event → Result AnalysisError Event × List Event
acquire now ttl max_attempts id worker rows =
    let cutoff = lock_cutoff now ttl in
    let hit = λ (e : Event). has_id id e && is_ready now cutoff max_attempts e in
    let rows' = update hit (lock worker now) rows in
    (
      if count hit rows == 1
          then refreshed (get_event id rows')
          else err (refused now cutoff max_attempts (get_event id rows')),
      rows',
    )

-- `ORDER BY created_at, id LIMIT 1`
abbrev before : Event → Event → Bool
before a b = ltb a.created_at b.created_at || (a.created_at == b.created_at && leb a.id b.id)

abbrev pick : Event → Option Event → Option Event
pick e none = some e
pick e (some f) = if before e f then some e else some f

unfoldable pub earliest : List Event → Option Event
earliest [] = none
earliest (e ∷ rows) = pick e (earliest rows)

pub data Dialect : Type 0 where
  postgresql other : Dialect

abbrev acquire_found :
    Dialect
    → Time
    → Time
    → ℕ
    → ℕ
    → String
    → List Event
    → Option Event
    → Result AnalysisError (Option Event) × List Event
acquire_found dialect now now' ttl max_attempts worker rows none = (ok none, rows)
acquire_found postgresql now now' ttl max_attempts worker rows (some e) =
    (ok (some (lock worker now e)), update (has_id e.id) (lock worker now) rows)
acquire_found other now now' ttl max_attempts worker rows (some e) =
    let (r, rows') = acquire now' ttl max_attempts e.id worker rows in
    (elim r [ ok f ↦ ok (some f) | err x ↦ err x ], rows')

-- `skipped` tells the rows that other transactions hold locked (`SKIP LOCKED`); the other
-- dialects skip none. On those the compare-and-set reads the clock a second time, at `now'`.
unfoldable pub acquire_next :
    Dialect
    → (Event → Bool)
    → Time
    → Time
    → ℕ
    → ℕ
    → ℕ
    → String
    → List Event
    → Result AnalysisError (Option Event) × List Event
acquire_next dialect skipped now now' ttl max_attempts tenant worker rows =
    let ready = λ (e : Event).
      e.tenant_id == tenant
      && (is_ready now (lock_cutoff now ttl) max_attempts e && not (skipped e)) in
    acquire_found dialect now now' ttl max_attempts worker rows (earliest (select ready rows))

abbrev is_analyzing : EventState → Bool
is_analyzing EventState.analyzing = true
is_analyzing _ = false

-- `_require_holder`
unfoldable pub require_holder : String → Event → Result AnalysisError Event
require_holder worker e =
    if is_analyzing e.processing_state
    then (if opt_eq e.locked_by worker then ok e else err (lock_held e.locked_by))
    else err (not_analyzing e.processing_state)

infixl 5 ◌>>=◌
abbrev pub ◌>>=◌ {ℓ κ μ} :
    {E : Type μ} {A : Type ℓ} {B : Type κ} → Result E A → (A → Result E B) → Result E B
ok a >>= f = f a
err x >>= f = err x

unfoldable pub complete : Time → String → String → Dict Json → Event → Result AnalysisError Event
unfolding require_holder
complete now worker version analysis event = do
  e ← require_holder worker event
  ok (record e {
    processing_state = EventState.analyzed;
    processed_at = some now;
    analysis_version = some version;
    analysis_json = analysis;
    error_code = none;
    locked_by = none;
    locked_at = none;
  })

-- The fields that a failed attempt sets on both branches, then those of the branch.
abbrev failing : String → Event → Event
failing code e = record e {
  attempts = e.attempts + 1;
  error_code = some (take_text 60 code);
  locked_by = none;
  locked_at = none;
}

unfoldable pub fail : Time → ℕ → String → String → Event → Result AnalysisError Event
unfolding require_holder
fail now max_attempts worker code event = do
  e ← require_holder worker event
  ok (
      if leb max_attempts (e.attempts + 1)
      then record (failing code e) {
        processing_state = EventState.dead_letter;
        next_attempt_at = none;
      }
      else record (failing code e) {
        processing_state = EventState.failed;
        next_attempt_at = some (next_backoff (e.attempts + 1) 30 3600 now);
      })

pub record QueueStats : Type 0 where
  pub ready : ℕ
  pub analyzing : ℕ
  pub failed : ℕ
  pub dead_letter : ℕ

abbrev state_code : EventState → ℕ
state_code EventState.received = 0
state_code EventState.normalized = 1
state_code EventState.control = 2
state_code EventState.rejected = 3
state_code EventState.dead_letter = 4
state_code EventState.analyzing = 5
state_code EventState.analyzed = 6
state_code EventState.failed = 7

abbrev pub in_state : EventState → Event → Bool
in_state s e = state_code e.processing_state == state_code s

unfoldable pub queue_stats : ℕ → List Event → QueueStats
queue_stats tenant rows =
    let tally = λ (s : EventState). count (λ e. (e.tenant_id == tenant) && in_state s e) rows in
    record {
      ready = tally EventState.normalized;
      analyzing = tally EventState.analyzing;
      failed = tally EventState.failed;
      dead_letter = tally EventState.dead_letter;
    }
