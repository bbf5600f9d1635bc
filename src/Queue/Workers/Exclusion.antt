-- ===== src/Queue/Workers/Exclusion.antt =====
-- A lock holds against every other worker for its time to live, whatever they do.
use threatforge.Common.{
  ℕ, ◌+◌, ◌≤◌, String, ◌≡◌, refl, ◌≢◌, Bool, false, Option, none, some, List, [], ◌∷◌, err, arith,
  opt_eq_sound, select, update, get_row-update, key-get_row, IsKeyed, All, if◌then◌else◌,
}
use threatforge.Models.{Time, seconds, Event, EventState, Dict, Json}
use threatforge.Queue.{
  AnalysisError, Dialect, postgresql, other, earliest, acquire_found, event_id, has_id, get_event,
  is_ready, lock, lock_cutoff, acquire, acquire_next, complete, fail,
}
use threatforge.Queue.Acquire.{hit, id-lock, acquire_held}
use threatforge.Queue.Next.{candidate, Found, earliest-Found, get-earliest}
use threatforge.Queue.Workers.Steps.{complete-id, fail-id, perform-IsKeyed, run-IsKeyed}
use threatforge.Queue.Workers.{
  Action, acquires, acquires_next, completes, fails, perform, run, or_same,
}

-- `e` has been locked by `holder` at `t`.
abbrev pub LockedAt : String → Time → Event → Type 0
LockedAt holder t e =
    (e.processing_state ≡ EventState.analyzing)
    × (e.locked_by ≡ some holder)
    × (e.locked_at ≡ some t)

-- An operation of another worker, at a time when a lock taken at `t` is still alive.
abbrev pub Peer : String → Time → Action → Type 0
Peer holder t (acquires now ttl id worker) = (worker ≢ holder) × (now ≤ t + seconds ttl)
Peer holder t (acquires_next dialect skipped now now' ttl tenant worker) =
    (worker ≢ holder) × (now ≤ t + seconds ttl) × (now' ≤ t + seconds ttl)
Peer holder t (completes now worker version analysis id) = worker ≢ holder
Peer holder t (fails now worker code id) = worker ≢ holder

alive-not-ready :
    (holder : String) (t now : Time) (ttl m : ℕ) (e : Event)
    → LockedAt holder t e
    → now ≤ t + seconds ttl
    → is_ready now (lock_cutoff now ttl) m e ≡ false
unfolding is_ready
alive-not-ready holder t now ttl m e locked alive = ground arith

module _ (holder : String) (t : Time) (m : ℕ) (e : Event) (locked : LockedAt holder t e) where
  -- An update that spares the row, by its condition or by its values.
  kept_by_update :
      (q : Event → Bool) (f : Event → Event) (id : ℕ) (rows : List Event)
      → ((x : Event) → (f x).id ≡ x.id)
      → (if q e then f e else e) ≡ e
      → get_event id rows ≡ some e
      → get_event id (update q f rows) ≡ some e
  kept_by_update q f id rows keeps same found =
      rw (get_row-update event_id q f keeps id rows, found, same)

  complete-other :
      (now : Time) (worker version : String) (analysis : Dict Json)
      → worker ≢ holder
      → or_same e (complete now worker version analysis e) ≡ e
  unfolding complete
  complete-other now worker version analysis stranger =
      ground (arith, opt_eq_sound e.locked_by worker)

  fail-other :
      (now : Time) (worker code : String)
      → worker ≢ holder
      → or_same e (fail now m worker code e) ≡ e
  unfolding fail
  fail-other now worker code stranger = ground (arith, opt_eq_sound e.locked_by worker)

  acquire_keeps :
      (now : Time) (ttl j : ℕ) (worker : String) (id : ℕ) (rows : List Event)
      → now ≤ t + seconds ttl
      → get_event id rows ≡ some e
      → get_event id (acquire now ttl m j worker rows).1 ≡ some e
  unfolding acquire
  acquire_keeps now ttl j worker id rows alive found =
      kept_by_update (hit now ttl m j) (lock worker now) id rows (id-lock worker now)
        (ground (arith, alive-not-ready holder t now ttl m e locked alive)) found

  -- The row that a query finds is another one, since the row of the lock is not ready.
  Found-keeps :
      (dialect : Dialect) (skipped : Event → Bool) (now now' : Time) (ttl tenant : ℕ)
      (worker : String) (id : ℕ) (rows : List Event) (o : Option Event)
      → now ≤ t + seconds ttl
      → now' ≤ t + seconds ttl
      → Found (candidate skipped now ttl m tenant) rows o
      → ((x : Event) → o ≡ some x → get_event x.id rows ≡ some x)
      → get_event id rows ≡ some e
      → get_event id (acquire_found dialect now now' ttl m worker rows o).1 ≡ some e
  Found-keeps dialect skipped now now' ttl tenant worker id rows none alive alive' first here
        found =
      found
  Found-keeps postgresql skipped now now' ttl tenant worker id rows (some x) alive alive' first here
        found =
      kept_by_update (has_id x.id) (lock worker now) id rows (id-lock worker now)
        (ground (
          arith,
          alive-not-ready holder t now ttl m e locked alive,
          here x refl,
          key-get_row event_id id rows found,
        ))
        found
  Found-keeps other skipped now now' ttl tenant worker id rows (some x) alive alive' first here
        found =
      acquire_keeps now' ttl x.id worker id rows alive' found

  Peer-keeps :
      (a : Action) (id : ℕ) (rows : List Event)
      → Peer holder t a
      → IsKeyed event_id rows
      → get_event id rows ≡ some e
      → get_event id (perform m a rows) ≡ some e
  unfolding perform acquire_next
  Peer-keeps (acquires now ttl j worker) id rows peer keyed found =
      acquire_keeps now ttl j worker id rows peer.1 found
  Peer-keeps (acquires_next dialect skipped now now' ttl tenant worker) id rows peer keyed found =
      let q = candidate skipped now ttl m tenant in
      Found-keeps dialect skipped now now' ttl tenant worker id rows (earliest (select q rows))
        peer.1 peer.2 (earliest-Found q rows) (λ x h. get-earliest q rows x keyed h) found
  Peer-keeps (completes now worker version analysis j) id rows peer keyed found =
      kept_by_update (has_id j) (λ x. or_same x (complete now worker version analysis x)) id rows
        (complete-id now worker version analysis)
        (ground (arith, complete-other now worker version analysis peer)) found
  Peer-keeps (fails now worker code j) id rows peer keyed found =
      kept_by_update (has_id j) (λ x. or_same x (fail now m worker code x)) id rows
        (fail-id now m worker code) (ground (arith, fail-other now worker code peer)) found

  keeps_run :
      (actions : List Action) (id : ℕ) (rows : List Event)
      → All (Peer holder t) actions
      → IsKeyed event_id rows
      → get_event id rows ≡ some e
      → get_event id (run m actions rows) ≡ some e
  unfolding run
  keeps_run [] id rows peers keyed found = found
  keeps_run (a ∷ actions) id rows peers keyed found =
      keeps_run actions id (perform m a rows) peers.1 (perform-IsKeyed m a rows keyed)
        (Peer-keeps a id rows peers.0 keyed found)

-- Mutual exclusion. A worker that has locked a row keeps it, unchanged in every column, through
-- any sequence of operations of other workers, on this row or others, that read the clock within
-- the lock's time to live; and each further attempt to acquire it is refused with the holder's name.
pub lock_excludes :
    (holder : String) (t : Time) (m id : ℕ) (e : Event) (actions : List Action) (rows : List Event)
    (now : Time) (ttl : ℕ) (worker : String)
    → LockedAt holder t e
    → All (Peer holder t) actions
    → IsKeyed event_id rows
    → get_event id rows ≡ some e
    → now ≤ t + seconds ttl
    → (get_event id (run m actions rows) ≡ some e)
      × (acquire now ttl m id worker (run m actions rows)
          ≡ (err (AnalysisError.lock_held (some holder)), run m actions rows))
lock_excludes holder t m id e actions rows now ttl worker locked peers keyed found alive =
    let kept = keeps_run holder t m e locked actions id rows peers keyed found in
    (
      kept,
      acquire_held now t ttl m id worker holder (run m actions rows) e
          (run-IsKeyed m actions rows keyed) kept locked.0 locked.1 locked.2 alive,
    )
