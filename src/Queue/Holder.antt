-- ===== src/Queue/Holder.antt =====
-- `complete` and `fail`: only the holder of the lock may end an analysis.
use threatforge.Common.{
  ℕ, ◌+◌, String, ◌≡◌, ◌≢◌, false, none, some, ok, err, arith, ltb, leb, eq_iff, opt_eq_sound,
  if◌then◌else◌,
}
use threatforge.Models.{Time, Event, EventState, Dict, Json}
use threatforge.Queue.{AnalysisError, is_ready, complete, fail, next_backoff}

-- `worker` holds the lock of `e`.
abbrev pub Holds : String → Event → Type 0
Holds worker e = (e.processing_state ≡ EventState.analyzing) × (e.locked_by ≡ some worker)

-- Whoever does not hold the lock ends nothing: both operations raise.
pub strangers_refused :
    (now : Time) (m : ℕ) (worker holder version code : String) (analysis : Dict Json) (e : Event)
    → Holds holder e
    → worker ≢ holder
    → (complete now worker version analysis e ≡ err (AnalysisError.lock_held (some holder)))
      × (fail now m worker code e ≡ err (AnalysisError.lock_held (some holder)))
unfolding complete fail
strangers_refused now m worker holder version code analysis e holds other =
    ground (arith, eq_iff holder worker)

-- A completed event has been held by the worker that completed it; it is analyzed, stamped, and
-- unlocked, its error is gone, and no worker can acquire it again, whenever and however it asks.
pub complete_final :
    (now : Time) (worker version : String) (analysis : Dict Json) (e f : Event)
    → complete now worker version analysis e ≡ ok f
    → Holds worker e
      × (f.processing_state ≡ EventState.analyzed)
      × (f.processed_at ≡ some now)
      × (f.analysis_json ≡ analysis)
      × (f.error_code ≡ none)
      × (f.locked_by ≡ none)
      × (f.attempts ≡ e.attempts)
      × ((t cutoff : Time) (m : ℕ) → is_ready t cutoff m f ≡ false)
unfolding complete is_ready
complete_final now worker version analysis e f h =
    let holds = opt_eq_sound e.locked_by worker in
    (
      (ground arith, ground (arith, holds)),
      ground arith,
      ground arith,
      ground arith,
      ground arith,
      ground arith,
      ground arith,
      λ t cutoff m. ground arith,
    )

-- A failed attempt on a row that is no control message and is not purged counts, and unlocks the row. Below the limit the row is retried: it is ready
-- again from the backed-off time on, and not before. At the limit it is a dead letter, which no
-- worker can acquire.
pub fail_decides :
    (now : Time) (m : ℕ) (worker code : String) (e f : Event)
    → e.is_control ≡ false
    → e.purged_at ≡ none
    → fail now m worker code e ≡ ok f
    → (f.attempts ≡ e.attempts + 1)
      × (f.locked_by ≡ none)
      × ((t cutoff : Time)
          → is_ready t cutoff m f ≡ (
              if ltb (e.attempts + 1) m
              then leb (next_backoff (e.attempts + 1) 30 3600 now) t
              else false))
      × (f.processing_state
          ≡ (if ltb (e.attempts + 1) m then EventState.failed else EventState.dead_letter))
unfolding fail is_ready
fail_decides now m worker code e f plain kept h =
    (ground arith, ground arith, (λ t cutoff. ground arith), ground arith)
