-- ===== src/Queue/Acquire.antt =====
-- `acquire` and `acquire_next`: who gets a row, and what becomes of the others.
use threatforge.Common.{
  ℕ, ◌+◌, ◌≤◌, String, ◌≡◌, refl, Bool, true, false, ◌&&◌, some, List, ok, err, inl, inr, arith,
  ◌==◌, Bool-cases, count, update, IsKeyed, get_row-update, count_keyed, update_none, if◌then◌else◌,
  hits, key-get_row, Option-cases,
}
use threatforge.Models.{Time, seconds, Event, EventState}
use threatforge.Queue.{
  AnalysisError, event_id, has_id, get_event, is_ready, lock, lock_cutoff, refused, acquire,
}

abbrev pub hit : Time → ℕ → ℕ → ℕ → Event → Bool
hit now ttl max_attempts id e = has_id id e && is_ready now (lock_cutoff now ttl) max_attempts e

pub id-lock : (worker : String) (now : Time) (e : Event) → (lock worker now e).id ≡ e.id
unfolding lock
id-lock worker now e = refl

pub hit-only : (now : Time) (ttl m id : ℕ) (e : Event) → hit now ttl m id e ≡ true → e.id ≡ id
hit-only now ttl m id e h = ground arith

module _ (now : Time) (ttl m id : ℕ) (worker : String) (rows : List Event)
    (keyed : IsKeyed event_id rows) where
  count-hit : count (hit now ttl m id) rows ≡ hits (hit now ttl m id) (get_event id rows)
  count-hit = count_keyed event_id id (hit now ttl m id) (hit-only now ttl m id) rows keyed

  count_ready :
      (e : Event)
      → get_event id rows ≡ some e
      → is_ready now (lock_cutoff now ttl) m e ≡ true
      → count (hit now ttl m id) rows ≡ 1
  count_ready e found ready =
      rw (count-hit, found) (ground (arith, key-get_row event_id id rows found))

  count_unready :
      (e : Event)
      → get_event id rows ≡ some e
      → is_ready now (lock_cutoff now ttl) m e ≡ false
      → count (hit now ttl m id) rows ≡ 0
  count_unready e found ready =
      rw (count-hit, found) (ground (arith, key-get_row event_id id rows found))

  get-locked :
      (e : Event)
      → get_event id rows ≡ some e
      → is_ready now (lock_cutoff now ttl) m e ≡ true
      → get_event id (update (hit now ttl m id) (lock worker now) rows) ≡ some (lock worker now e)
  get-locked e found ready =
      rw (get_row-update event_id (hit now ttl m id) (lock worker now) (id-lock worker now), found)
        (ground (arith, key-get_row event_id id rows found))

  -- A ready row is locked for the caller: the lock is in the table, and the caller gets the row.
  pub acquire_ready :
      (e : Event)
      → get_event id rows ≡ some e
      → is_ready now (lock_cutoff now ttl) m e ≡ true
      → acquire now ttl m id worker rows
        ≡ (ok (lock worker now e), update (hit now ttl m id) (lock worker now) rows)
  unfolding acquire
  acquire_ready e found ready = rw (count_ready e found ready, get-locked e found ready)

  pub acquire-refused :
      (e : Event)
      → get_event id rows ≡ some e
      → is_ready now (lock_cutoff now ttl) m e ≡ false
      → acquire now ttl m id worker rows
        ≡ (err (refused now (lock_cutoff now ttl) m (some e)), rows)
  unfolding acquire
  acquire-refused e found ready =
      let c = count_unready e found ready in
      rw (c, update_none (hit now ttl m id) (lock worker now) rows c, found)

  -- After a won compare-and-set only the row `id` has changed.
  get-update-hit :
      (e : Event)
      → get_event id rows ≡ some e
      → is_ready now (lock_cutoff now ttl) m e ≡ true
      → (j : ℕ)
      → get_event j (update (hit now ttl m id) (lock worker now) rows)
        ≡ (if j == id then some (lock worker now e) else get_event j rows)
  get-update-hit e found ready j =
      rw (get_row-update event_id (hit now ttl m id) (lock worker now) (id-lock worker now) j rows)
        (elim (Option-cases (get_event j rows)) [
          | inl gone ↦ rw gone (ground (arith, found, ready))
          | inr (x, at_j) ↦
              rw at_j (ground (arith, found, ready, at_j, key-get_row event_id j rows at_j))
        ])

-- The compare-and-set, on a table whose ids are unique: the caller gets the row `id` with its lock
-- exactly if the row is ready, and the table then differs in that row alone; a row that is not
-- ready is refused for the reason that `refused` reads off it, and the table is as it was.
pub acquire_decides :
    (now : Time) (ttl m id : ℕ) (worker : String) (rows : List Event) (e : Event)
    → IsKeyed event_id rows
    → get_event id rows ≡ some e
    → let ready = is_ready now (lock_cutoff now ttl) m e in
      let (r, rows') = acquire now ttl m id worker rows in
      (r ≡ (
        if ready
        then ok (lock worker now e)
        else err (refused now (lock_cutoff now ttl) m (some e))))
      × ((j : ℕ)
          → get_event j rows'
            ≡ (if ready && (j == id) then some (lock worker now e) else get_event j rows))
acquire_decides now ttl m id worker rows e keyed found =
    elim (Bool-cases (is_ready now (lock_cutoff now ttl) m e)) [
      | inl ready ↦
          rw (ready, acquire_ready now ttl m id worker rows keyed e found ready)
            (refl, λ j. get-update-hit now ttl m id worker rows keyed e found ready j)
      | inr unready ↦
          rw (unready, acquire-refused now ttl m id worker rows keyed e found unready)
            (refl, λ j. refl)
    ]

-- While the lock of another worker is younger than the time to live, the row is refused with that
-- worker's name, and the table is left alone.
pub acquire_held :
    (now t : Time) (ttl m id : ℕ) (worker holder : String) (rows : List Event) (e : Event)
    → IsKeyed event_id rows
    → get_event id rows ≡ some e
    → e.processing_state ≡ EventState.analyzing
    → e.locked_by ≡ some holder
    → e.locked_at ≡ some t
    → now ≤ t + seconds ttl
    → acquire now ttl m id worker rows ≡ (err (AnalysisError.lock_held (some holder)), rows)
unfolding is_ready refused
acquire_held now t ttl m id worker holder rows e keyed found state by at fresh =
    let unready : is_ready now (lock_cutoff now ttl) m e ≡ false = ground arith in
    rw (acquire-refused now ttl m id worker rows keyed e found unready) (ground arith)
