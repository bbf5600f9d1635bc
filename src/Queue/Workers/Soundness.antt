-- ===== src/Queue/Workers/Soundness.antt =====
-- The invariant of an event, and what no sequence of operations can do to it.
use threatforge.Common.{
  ℕ, ◌≤◌, ◌<◌, String, ◌≡◌, refl, Bool, true, false, none, some, List, [], ◌∷◌, ok, arith, ◌∙◌,
  is_some, IsKeyed, ◌⊎◌, inl, inr,
}
use threatforge.Models.{Time, Event, EventState, Dict, Json}
use threatforge.Queue.{event_id, get_event, is_ready, lock, complete, fail}
use threatforge.Queue.Workers.{Action, perform, run}
use threatforge.Queue.Workers.Steps.{
  Transition, stays, locks, ends, breaks, perform-IsKeyed, perform-Goes,
}

abbrev pub SoundIn : ℕ → Event → EventState → Type 0
SoundIn m e EventState.analyzing =
    (is_some e.locked_by ≡ true)
    × (is_some e.locked_at ≡ true)
    × (e.is_control ≡ false)
    × (e.attempts < m)
SoundIn m e EventState.failed =
    (e.locked_by ≡ none)
    × (e.locked_at ≡ none)
    × (0 < e.attempts)
    × (e.attempts < m)
    × (is_some e.next_attempt_at ≡ true)
SoundIn m e EventState.dead_letter =
    (e.locked_by ≡ none) × (e.locked_at ≡ none) × (e.attempts ≡ m) × (e.next_attempt_at ≡ none)
SoundIn m e EventState.analyzed = (e.locked_by ≡ none) × (e.locked_at ≡ none) × (e.attempts < m)
SoundIn m e _ = (e.locked_by ≡ none) × (e.locked_at ≡ none) × (e.attempts ≡ 0)

-- A row is locked exactly while it is analyzing, only evidence is analyzed, and the attempts stay
-- below the limit, which only a dead letter has reached.
abbrev pub IsSound : ℕ → Event → Type 0
IsSound m e = SoundIn m e e.processing_state

-- The states that the queue never takes a row from.
abbrev pub is_final : EventState → Bool
is_final EventState.normalized = false
is_final EventState.analyzing = false
is_final EventState.failed = false
is_final _ = true

lock-IsSound :
    (m : ℕ) (now cutoff : Time) (worker : String) (e : Event)
    → is_ready now cutoff m e ≡ true
    → IsSound m (lock worker now e)
unfolding is_ready lock
lock-IsSound m now cutoff worker e h = ground arith

complete-IsSound :
    (m : ℕ) (now : Time) (worker version : String) (analysis : Dict Json) (e f : Event)
    → complete now worker version analysis e ≡ ok f
    → IsSound m e
    → IsSound m f
unfolding complete
complete-IsSound m now worker version analysis e f h s = ground arith

fail-IsSound :
    (m : ℕ) (now : Time) (worker code : String) (e f : Event)
    → fail now m worker code e ≡ ok f
    → IsSound m e
    → IsSound m f
unfolding fail
fail-IsSound m now worker code e f h s = ground arith

Transition-IsSound : (m : ℕ) {e f : Event} → Transition m e f → IsSound m e → IsSound m f
Transition-IsSound m stays s = s
Transition-IsSound m {e} (locks now cutoff worker h) s = lock-IsSound m now cutoff worker e h
Transition-IsSound m {e} {f} (ends now worker version analysis h) s =
    complete-IsSound m now worker version analysis e f h s
Transition-IsSound m {e} {f} (breaks now worker code h) s = fail-IsSound m now worker code e f h s

Transition-attempts : (m : ℕ) {e f : Event} → Transition m e f → e.attempts ≤ f.attempts
unfolding lock complete fail
Transition-attempts m stays = omega arith
Transition-attempts m {e} (locks now cutoff worker h) = omega arith
Transition-attempts m {e} {f} (ends now worker version analysis h) = ground arith
Transition-attempts m {e} {f} (breaks now worker code h) = ground arith

-- Out of a final state there is no transition but staying.
Transition-final :
    (m : ℕ) {e f : Event} → Transition m e f → is_final e.processing_state ≡ true → f ≡ e
unfolding is_ready complete fail
Transition-final m stays s = refl
Transition-final m {e} (locks now cutoff worker h) s = absurd (ground arith)
Transition-final m {e} {f} (ends now worker version analysis h) s = absurd (ground arith)
Transition-final m {e} {f} (breaks now worker code h) s = absurd (ground arith)

-- What holds of a row before and after some operations.
abbrev pub Progress : ℕ → Event → Event → Type 0
Progress m e f =
    IsSound m f × (e.attempts ≤ f.attempts) × ((is_final e.processing_state ≡ false) ⊎ (f ≡ e))

Progress-step : (m : ℕ) {e f g : Event} → Transition m e f → Progress m f g → Progress m e g
Progress-step m {e} {f} {g} t p = (
  p.0,
  omega (arith, Transition-attempts m t),
  Final-step (is_final e.processing_state) refl (λ s. Transition-final m t s) p.2,
)
  where
    Final-step :
        (b : Bool)
        → is_final e.processing_state ≡ b
        → (is_final e.processing_state ≡ true → f ≡ e)
        → (is_final f.processing_state ≡ false) ⊎ (g ≡ f)
        → (is_final e.processing_state ≡ false) ⊎ (g ≡ e)
    Final-step false open_state still h = inl open_state
    Final-step true final still (inl h) = absurd (ground (arith, still final, final, h))
    Final-step true final still (inr h) = inr (h ∙ still final)

-- Through any sequence of operations of any workers, succeeding or raising, a sound row stays in
-- the table and stays sound: it has a lock exactly while it is analyzing, only evidence is
-- analyzed, and its attempts, which never fall, stay below the limit until the row is a dead
-- letter. A row in a final state is not changed at all.
pub run-IsSound :
    (m : ℕ) (actions : List Action) (rows : List Event) (j : ℕ) (e : Event)
    → IsKeyed event_id rows
    → get_event j rows ≡ some e
    → IsSound m e
    → (f : Event) × (get_event j (run m actions rows) ≡ some f) × Progress m e f
unfolding run
run-IsSound m [] rows j e keyed found s = (e, found, (s, omega arith, inr refl))
run-IsSound m (a ∷ actions) rows j e keyed found s =
    let (f, at_f, t) = perform-Goes m a rows j e keyed found in
    let (g, at_g, p) =
      run-IsSound m actions (perform m a rows) j f (perform-IsKeyed m a rows keyed) at_f
        (Transition-IsSound m t s) in
    (g, at_g, Progress-step m t p)
