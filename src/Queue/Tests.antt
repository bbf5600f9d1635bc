-- ===== src/Queue/Tests.antt =====
-- Runs of the queue, and the theorems at concrete tables.
use threatforge.Common.{
  ℕ, ◌+◌, String, ◌≡◌, refl, ◌≢◌, true, false, none, some, List, [], ◌∷◌, ok, err, arith, eq_iff,
  find?, count, update, select, take_text, IsKeyed, ltb, leb, ◌==◌, ◌&&◌, Option, if◌then◌else◌,
}
use threatforge.Models.{Time, Event, EventState}
use threatforge.Models.Samples.{sample_event}
use threatforge.Queue.{
  AnalysisError, postgresql, earliest, event_id, get_event, is_ready, lock, lock_cutoff, refused,
  acquire, acquire_next, complete, fail,
}
use threatforge.Queue.Acquire.{acquire_decides}
use threatforge.Queue.Next.{Found, candidate, claimed, acquire_next_first}
use threatforge.Queue.Backoff.{next_backoff, delay_seconds}
use threatforge.Queue.Holder.{fail_decides}
use threatforge.Queue.Workers.{Action, acquires, completes, run}
use threatforge.Queue.Workers.Exclusion.{lock_excludes}
use threatforge.Queue.Workers.Soundness.{Progress, run-IsSound}

-- An older event of another tenant stands behind the sample.
abbrev rows : List Event
rows = sample_event ∷ record sample_event { id = 8; tenant_id = 2; created_at = 90 } ∷ []

-- The table after worker "a" has locked event 7 at time 1000, and the locked row.
abbrev held : Event
held = record sample_event {
  processing_state = EventState.analyzing;
  locked_by = some "a";
  locked_at = some 1000;
}

abbrev held_rows : List Event
held_rows = held ∷ record sample_event { id = 8; tenant_id = 2; created_at = 90 } ∷ []

acquire_run : acquire 1000 300 5 7 "a" rows ≡ (ok held, held_rows)
unfolding acquire is_ready lock count update find?
acquire_run = refl

-- Tenant 1 does not get the older event of tenant 2.
acquire_next_run :
    acquire_next postgresql (λ _. false) 1000 1000 300 5 1 "a" rows ≡ (ok (some held), held_rows)
unfolding acquire_next is_ready lock update earliest select
acquire_next_run = refl

fifth_failure :
    fail 2000 5 "a" "timeout" (record held { attempts = 4 })
    ≡ ok (record held {
      processing_state = EventState.dead_letter;
      attempts = 5;
      error_code = some "timeout";
      locked_by = none;
      locked_at = none;
    })
unfolding fail take_text
fifth_failure = refl

rows-IsKeyed : IsKeyed event_id rows
unfolding find?
rows-IsKeyed = (refl, (refl, tt))

held_rows-IsKeyed : IsKeyed event_id held_rows
unfolding find?
held_rows-IsKeyed = (refl, (refl, tt))

sample_found : get_event 7 rows ≡ some sample_event
unfolding find?
sample_found = refl

held_found : get_event 7 held_rows ≡ some held
unfolding find?
held_found = refl

sample_ready : is_ready 1000 (lock_cutoff 1000 300) 5 sample_event ≡ true
unfolding is_ready
sample_ready = refl

acquire_decides_example :
    let ready = is_ready 1000 (lock_cutoff 1000 300) 5 sample_event in
    let (r, rows') = acquire 1000 300 5 7 "a" rows in
    (r ≡ (
      if ready
      then ok (lock "a" 1000 sample_event)
      else err (refused 1000 (lock_cutoff 1000 300) 5 (some sample_event))))
    × ((j : ℕ)
        → get_event j rows'
          ≡ (if ready && (j == 7) then some (lock "a" 1000 sample_event) else get_event j rows))
acquire_decides_example =
    acquire_decides 1000 300 5 7 "a" rows sample_event rows-IsKeyed sample_found

acquire_next_first_example :
    (o : Option Event) × Found (candidate (λ _. false) 1000 300 5 1) rows o
    × (acquire_next postgresql (λ _. false) 1000 1000 300 5 1 "a" rows ≡ claimed 1000 "a" rows o)
acquire_next_first_example = acquire_next_first (λ _. false) 1000 1000 300 5 1 "a" rows

b≢a : ◌≢◌ {A = String} "b" "a"
b≢a = ground (arith, eq_iff "b" "a")

abbrev done : Event
done = record held {
  processing_state = EventState.analyzed;
  processed_at = some 2000;
  analysis_version = some "v2";
  locked_by = none;
  locked_at = none;
}

complete_run : complete 2000 "a" "v2" [] held ≡ ok done
unfolding complete
complete_run = refl

abbrev failed_once : Event
failed_once = record held {
  processing_state = EventState.failed;
  attempts = 1;
  next_attempt_at = some 30002000;
  error_code = some "timeout";
  locked_by = none;
  locked_at = none;
}

first_failure : fail 2000 5 "a" "timeout" held ≡ ok failed_once
unfolding fail take_text next_backoff delay_seconds
first_failure = refl

fail_decides_example :
    (failed_once.attempts ≡ 0 + 1)
    × (failed_once.locked_by ≡ none)
    × ((t cutoff : Time)
        → is_ready t cutoff 5 failed_once
          ≡ (if ltb (0 + 1) 5 then leb (next_backoff (0 + 1) 30 3600 2000) t else false))
    × (failed_once.processing_state ≡ EventState.failed)
fail_decides_example = fail_decides 2000 5 "a" "timeout" held failed_once refl refl first_failure

-- A peer tries to complete, and to acquire, while the lock of "a" is alive.
abbrev peers : List Action
peers = completes 1500 "b" "v2" [] 7 ∷ acquires 1600 300 7 "b" ∷ []

lock_excludes_example :
    (get_event 7 (run 5 peers held_rows) ≡ some held)
    × (acquire 2000 300 5 7 "c" (run 5 peers held_rows)
        ≡ (err (AnalysisError.lock_held (some "a")), run 5 peers held_rows))
lock_excludes_example =
    lock_excludes "a" 1000 5 7 held peers held_rows 2000 300 "c" (refl, refl, refl)
      (b≢a, ((b≢a, omega arith), tt)) held_rows-IsKeyed held_found (omega arith)

run-IsSound_example :
    (f : Event) × (get_event 7 (run 5 peers held_rows) ≡ some f) × Progress 5 held f
run-IsSound_example =
    run-IsSound 5 peers held_rows 7 held held_rows-IsKeyed held_found
      (refl, refl, refl, omega arith)

two_ne_one : ◌≢◌ {A = ℕ} 2 1
two_ne_one = omega arith
