-- ===== src/Queue/Workers/Steps.antt =====
-- What one operation does to a row: the transitions of an event.
use threatforge.Common.{
  ℕ, String, ◌≡◌, refl, Bool, true, Option, none, some, List, [], ◌∷◌, Result, ok, err, inl, inr,
  arith, Bool-cases, select, update, get_row-update, key-get_row, IsKeyed, IsKeyed-update,
}
use threatforge.Models.{Time, Event, Dict, Json}
use threatforge.Queue.{
  AnalysisError, Dialect, postgresql, other, event_id, has_id, get_event, is_ready, lock,
  lock_cutoff, acquire, acquire_next, acquire_found, earliest, complete, fail,
}
use threatforge.Queue.Acquire.{hit, id-lock}
use threatforge.Queue.Next.{candidate, Found, earliest-Found, get-earliest}
use threatforge.Queue.Workers.{
  Action, acquires, acquires_next, completes, fails, or_same, perform, run,
}

pub complete-id :
    (now : Time) (worker version : String) (analysis : Dict Json) (e : Event)
    → (or_same e (complete now worker version analysis e)).id ≡ e.id
unfolding complete
complete-id now worker version analysis e = ground arith

pub fail-id :
    (now : Time) (m : ℕ) (worker code : String) (e : Event)
    → (or_same e (fail now m worker code e)).id ≡ e.id
unfolding fail
fail-id now m worker code e = ground arith

module _ (m : ℕ) where
  found-IsKeyed :
      (dialect : Dialect) (now now' : Time) (ttl : ℕ) (worker : String) (rows : List Event)
      (o : Option Event)
      → IsKeyed event_id rows
      → IsKeyed event_id (acquire_found dialect now now' ttl m worker rows o).1
  unfolding acquire
  found-IsKeyed dialect now now' ttl worker rows none keyed = keyed
  found-IsKeyed postgresql now now' ttl worker rows (some x) keyed =
      IsKeyed-update event_id (has_id x.id) (lock worker now) (id-lock worker now) rows keyed
  found-IsKeyed other now now' ttl worker rows (some x) keyed =
      IsKeyed-update event_id (hit now' ttl m x.id) (lock worker now') (id-lock worker now') rows
        keyed

  -- No operation makes an id stand twice.
  pub perform-IsKeyed :
      (a : Action) (rows : List Event) → IsKeyed event_id rows → IsKeyed event_id (perform m a rows)
  unfolding perform acquire acquire_next
  perform-IsKeyed (acquires now ttl id worker) rows keyed =
      IsKeyed-update event_id (hit now ttl m id) (lock worker now) (id-lock worker now) rows keyed
  perform-IsKeyed (acquires_next dialect skipped now now' ttl tenant worker) rows keyed =
      found-IsKeyed dialect now now' ttl worker rows
        (earliest (select (candidate skipped now ttl m tenant) rows)) keyed
  perform-IsKeyed (completes now worker version analysis id) rows keyed =
      IsKeyed-update event_id (has_id id) (λ e. or_same e (complete now worker version analysis e))
        (complete-id now worker version analysis) rows keyed
  perform-IsKeyed (fails now worker code id) rows keyed =
      IsKeyed-update event_id (has_id id) (λ e. or_same e (fail now m worker code e))
        (fail-id now m worker code) rows keyed

  pub run-IsKeyed :
      (actions : List Action) (rows : List Event)
      → IsKeyed event_id rows
      → IsKeyed event_id (run m actions rows)
  unfolding run
  run-IsKeyed [] rows keyed = keyed
  run-IsKeyed (a ∷ actions) rows keyed =
      run-IsKeyed actions (perform m a rows) (perform-IsKeyed a rows keyed)

  -- The transitions of the state machine: a row stays, a ready row is locked, and a holder ends
  -- its analysis.
  pub data Transition (e : Event) : Event → Type 0 where
    stays : Transition e e
    locks :
        (now cutoff : Time) (worker : String)
        → is_ready now cutoff m e ≡ true
        → Transition e (lock worker now e)
    ends :
        (now : Time) (worker version : String) (analysis : Dict Json) {f : Event}
        → complete now worker version analysis e ≡ ok f
        → Transition e f
    breaks :
        (now : Time) (worker code : String) {f : Event}
        → fail now m worker code e ≡ ok f
        → Transition e f

  -- The row that an update leaves is reached by a transition.
  abbrev pub Goes : ℕ → List Event → Event → Type 0
  Goes j rows x = (y : Event) × (get_event j rows ≡ some y) × Transition x y

  update-Goes :
      (q : Event → Bool) (f : Event → Event) (j : ℕ) (rows : List Event) (x : Event)
      → ((z : Event) → (f z).id ≡ z.id)
      → (q x ≡ true → Transition x (f x))
      → get_event j rows ≡ some x
      → Goes j (update q f rows) x
  update-Goes q f j rows x keeps step found = elim (Bool-cases (q x)) [
    | inl hit_row ↦
        (f x, rw (get_row-update event_id q f keeps j rows, found, hit_row), step hit_row)
    | inr spared ↦ (x, rw (get_row-update event_id q f keeps j rows, found, spared), stays)
  ]

  or_same-ends :
      (now : Time) (worker version : String) (analysis : Dict Json) (x : Event)
      (r : Result AnalysisError Event)
      → complete now worker version analysis x ≡ r
      → Transition x (or_same x r)
  or_same-ends now worker version analysis x (ok f) h = ends now worker version analysis h
  or_same-ends now worker version analysis x (err c) h = stays

  or_same-breaks :
      (now : Time) (worker code : String) (x : Event) (r : Result AnalysisError Event)
      → fail now m worker code x ≡ r
      → Transition x (or_same x r)
  or_same-breaks now worker code x (ok f) h = breaks now worker code h
  or_same-breaks now worker code x (err c) h = stays

  acquire-Goes :
      (now : Time) (ttl id : ℕ) (worker : String) (rows : List Event) (j : ℕ) (x : Event)
      → get_event j rows ≡ some x
      → Goes j (acquire now ttl m id worker rows).1 x
  unfolding acquire
  acquire-Goes now ttl id worker rows j x found =
      update-Goes (hit now ttl m id) (lock worker now) j rows x (id-lock worker now)
        (λ h. locks now (lock_cutoff now ttl) worker (ground arith)) found

  Found-Goes :
      (dialect : Dialect) (skipped : Event → Bool) (now now' : Time) (ttl tenant : ℕ)
      (worker : String) (rows : List Event) (o : Option Event) (j : ℕ) (x : Event)
      → Found (candidate skipped now ttl m tenant) rows o
      → ((z : Event) → o ≡ some z → get_event z.id rows ≡ some z)
      → get_event j rows ≡ some x
      → Goes j (acquire_found dialect now now' ttl m worker rows o).1 x
  Found-Goes dialect skipped now now' ttl tenant worker rows none j x first here found =
      (x, found, stays)
  Found-Goes postgresql skipped now now' ttl tenant worker rows (some z) j x first here found =
      update-Goes (has_id z.id) (lock worker now) j rows x (id-lock worker now)
        (λ h.
          locks now (lock_cutoff now ttl) worker
            (ground (arith, here z refl, first.0, key-get_row event_id j rows found)))
        found
  Found-Goes other skipped now now' ttl tenant worker rows (some z) j x first here found =
      acquire-Goes now' ttl z.id worker rows j x found

  -- Every operation, on whichever row, moves each row of the table by a transition.
  pub perform-Goes :
      (a : Action) (rows : List Event) (j : ℕ) (x : Event)
      → IsKeyed event_id rows
      → get_event j rows ≡ some x
      → Goes j (perform m a rows) x
  unfolding perform acquire_next
  perform-Goes (acquires now ttl id worker) rows j x keyed found =
      acquire-Goes now ttl id worker rows j x found
  perform-Goes (acquires_next dialect skipped now now' ttl tenant worker) rows j x keyed found =
      let q = candidate skipped now ttl m tenant in
      Found-Goes dialect skipped now now' ttl tenant worker rows (earliest (select q rows)) j x
        (earliest-Found q rows) (λ z h. get-earliest q rows z keyed h) found
  perform-Goes (completes now worker version analysis id) rows j x keyed found =
      update-Goes (has_id id) (λ e. or_same e (complete now worker version analysis e)) j rows x
        (complete-id now worker version analysis)
        (λ h.
          or_same-ends now worker version analysis x (complete now worker version analysis x) refl)
        found
  perform-Goes (fails now worker code id) rows j x keyed found =
      update-Goes (has_id id) (λ e. or_same e (fail now m worker code e)) j rows x
        (fail-id now m worker code)
        (λ h. or_same-breaks now worker code x (fail now m worker code x) refl) found
