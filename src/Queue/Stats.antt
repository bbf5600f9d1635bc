-- ===== src/Queue/Stats.antt =====
-- `queue_stats`: each operation moves one unit between the counters.
use threatforge.Common.{
  ℕ, ◌+◌, String, ◌≡◌, Bool, true, ◌&&◌, some, List, arith, ◌==◌, count, ◌≢◌, key-get_row,
  count-update, IsKeyed, if◌then◌else◌,
}
use threatforge.Models.{Time, Event, EventState}
use threatforge.Queue.Acquire.{hit, hit-only, acquire_ready}
use threatforge.Queue.{
  event_id, get_event, lock, in_state, queue_stats, acquire, lock_cutoff, is_ready,
}

abbrev counted : ℕ → EventState → Event → Bool
counted tenant s e = (e.tenant_id == tenant) && in_state s e

abbrev unit : ℕ → EventState → Event → ℕ
unit tenant s e = if counted tenant s e then 1 else 0

module _ (now : Time) (ttl m id : ℕ) (worker : String) (rows : List Event) (e : Event)
    (keyed : IsKeyed event_id rows) (found : get_event id rows ≡ some e)
    (ready : is_ready now (lock_cutoff now ttl) m e ≡ true) where
  -- Locking a row takes it out of the count of its state, and into that of the analyzing rows.
  moved :
      (tenant : ℕ) (s : EventState)
      → count (counted tenant s) (acquire now ttl m id worker rows).1 + unit tenant s e
        ≡ count (counted tenant s) rows + unit tenant s (lock worker now e)
  moved tenant s = rw (acquire_ready now ttl m id worker rows keyed e found ready) (
      count-update event_id id (hit now ttl m id) (hit-only now ttl m id) (lock worker now)
        (counted tenant s) rows e keyed found
        (ground (arith, ready, key-get_row event_id id rows found)))

-- Locking a normalized row of the tenant takes one from the tenant's ready count and adds one to
-- its analyzing count; the failed and the dead letters, and every count of another tenant, stay.
pub stats-acquire :
    (now : Time) (ttl m id : ℕ) (worker : String) (rows : List Event) (e : Event)
    (tenant stranger : ℕ)
    → IsKeyed event_id rows
    → get_event id rows ≡ some e
    → is_ready now (lock_cutoff now ttl) m e ≡ true
    → e.processing_state ≡ EventState.normalized
    → e.tenant_id ≡ tenant
    → stranger ≢ tenant
    → let before = queue_stats tenant rows in
      let after = queue_stats tenant (acquire now ttl m id worker rows).1 in
      (after.ready + 1 ≡ before.ready)
      × (after.analyzing ≡ before.analyzing + 1)
      × (after.failed ≡ before.failed)
      × (after.dead_letter ≡ before.dead_letter)
      × (queue_stats stranger (acquire now ttl m id worker rows).1 ≡ queue_stats stranger rows)
unfolding queue_stats lock
stats-acquire now ttl m id worker rows e tenant stranger keyed found ready state own apart =
    let shift = moved now ttl m id worker rows e keyed found ready in
    (
      ground (arith, shift tenant EventState.normalized),
      ground (arith, shift tenant EventState.analyzing),
      ground (arith, shift tenant EventState.failed),
      ground (arith, shift tenant EventState.dead_letter),
      ground (
        arith,
        shift stranger EventState.normalized,
        shift stranger EventState.analyzing,
        shift stranger EventState.failed,
        shift stranger EventState.dead_letter,
      ),
    )
