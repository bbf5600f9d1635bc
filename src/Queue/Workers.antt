-- ===== src/Queue/Workers.antt =====
-- Several workers over one table: their operations in any order, one transaction each.
mod Steps
pub mod Exclusion
pub mod Soundness
use threatforge.Common.{
  ℕ, String, Bool, List, [], ◌∷◌, ◌++◌, Result, ok, err, update, if◌then◌else◌,
}
use threatforge.Models.{Time, Event, Dict, Json}
use threatforge.Queue.{AnalysisError, Dialect, has_id, acquire, acquire_next, complete, fail}

pub data Action : Type 0 where
  acquires : Time → ℕ → ℕ → String → Action
  acquires_next : Dialect → (Event → Bool) → Time → Time → ℕ → ℕ → String → Action
  completes : Time → String → String → Dict Json → ℕ → Action
  fails : Time → String → String → ℕ → Action

abbrev pub or_same : Event → Result AnalysisError Event → Event
or_same e (ok f) = f
or_same e (err x) = e

module _ (max_attempts : ℕ) where
  -- An operation on an event writes the row that it was loaded from; one that raises writes nothing.
  pub perform : Action → List Event → List Event
  perform (acquires now ttl id worker) rows = (acquire now ttl max_attempts id worker rows).1
  perform (acquires_next dialect skipped now now' ttl tenant worker) rows =
      (acquire_next dialect skipped now now' ttl max_attempts tenant worker rows).1
  perform (completes now worker version analysis id) rows =
      update (has_id id) (λ e. or_same e (complete now worker version analysis e)) rows
  perform (fails now worker code id) rows =
      update (has_id id) (λ e. or_same e (fail now max_attempts worker code e)) rows

  pub run : List Action → List Event → List Event
  unfolding perform
  run [] rows = rows
  run (a ∷ actions) rows = run actions (perform a rows)
