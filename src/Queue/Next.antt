-- ===== src/Queue/Next.antt =====
-- `acquire_next`: the oldest ready row of the tenant.
use threatforge.Common.{
  ℕ, String, ◌≡◌, refl, Bool, true, false, not, ◌&&◌, ◌||◌, Option, none, some, List, [], ◌∷◌,
  Result, ok, inl, inr, arith, ◌==◌, find?, IsKeyed, Bool-cases, Option-cases, select, update, All,
}
use threatforge.Models.{Time, Event}
use threatforge.Queue.{
  postgresql, before, earliest, pick, acquire_found, AnalysisError, event_id, get_event, has_id,
  is_ready, lock, lock_cutoff, acquire_next,
}

-- A row that the query of a tenant finds.
abbrev pub candidate : (Event → Bool) → Time → ℕ → ℕ → ℕ → Event → Bool
candidate skipped now ttl m tenant e =
    e.tenant_id == tenant && (is_ready now (lock_cutoff now ttl) m e && not (skipped e))

-- Of the candidates among the rows, `e` comes first.
abbrev pub FirstOf : (Event → Bool) → Event → List Event → Type 0
FirstOf q e rows = All (λ f. (not (q f) || before e f) ≡ true) rows

before_refl : (e : Event) → before e e ≡ true
before_refl e = ground arith

before_trans : (a b c : Event) → before a b ≡ true → before b c ≡ true → before a c ≡ true
before_trans a b c h k = ground arith

before_total : (a b : Event) → before a b ≡ false → before b a ≡ true
before_total a b h = ground arith

FirstOf-widen :
    (q : Event → Bool) (a b : Event) (rows : List Event)
    → before a b ≡ true
    → FirstOf q b rows
    → FirstOf q a rows
FirstOf-widen q a b [] h k = tt
FirstOf-widen q a b (f ∷ rows) h k = (ground (arith, h, k.0), FirstOf-widen q a b rows h k.1)

-- What the query of a table finds: a candidate that comes first, or no row is a candidate.
abbrev pub Found : (Event → Bool) → List Event → Option Event → Type 0
Found q rows none = All (λ f. q f ≡ false) rows
Found q rows (some e) = (q e ≡ true) × FirstOf q e rows

FirstOf-vacuous :
    (q : Event → Bool) (e : Event) (rows : List Event)
    → All (λ f. q f ≡ false) rows
    → FirstOf q e rows
FirstOf-vacuous q e [] h = tt
FirstOf-vacuous q e (f ∷ rows) h = (ground (arith, h.0), FirstOf-vacuous q e rows h.1)

pick-Found :
    (q : Event → Bool) (e : Event) (rows : List Event) (o : Option Event)
    → q e ≡ true
    → Found q rows o
    → Found q (e ∷ rows) (pick e o)
pick-Found q e rows none h k = (h, (ground (arith, before_refl e), FirstOf-vacuous q e rows k))
pick-Found q e rows (some f) h k = elim (Bool-cases (before e f)) [
  | inl first ↦ rw first (h, (ground (arith, before_refl e), FirstOf-widen q e f rows first k.1))
  | inr later ↦ rw later (k.0, (ground (arith, before_total e f later), k.1))
]

skip-Found :
    (q : Event → Bool) (e : Event) (rows : List Event) (o : Option Event)
    → q e ≡ false
    → Found q rows o
    → Found q (e ∷ rows) o
skip-Found q e rows none h k = (h, k)
skip-Found q e rows (some f) h k = (k.0, (ground (arith, h), k.1))

pub earliest-Found :
    (q : Event → Bool) (rows : List Event) → Found q rows (earliest (select q rows))
unfolding earliest select
earliest-Found q [] = tt
earliest-Found q (e ∷ rows) = elim (Bool-cases (q e)) [
  | inl hit ↦ rw hit (pick-Found q e rows (earliest (select q rows)) hit (earliest-Found q rows))
  | inr miss ↦ rw miss (skip-Found q e rows (earliest (select q rows)) miss (earliest-Found q rows))
]

-- What a worker has after the query: the row that it found, locked, or nothing.
abbrev pub claimed :
    Time → String → List Event → Option Event → Result AnalysisError (Option Event) × List Event
claimed now worker rows none = (ok none, rows)
claimed now worker rows (some e) =
    (ok (some (lock worker now e)), update (has_id e.id) (lock worker now) rows)

found-claimed :
    (now now' : Time) (ttl m : ℕ) (worker : String) (rows : List Event) (o : Option Event)
    → acquire_found postgresql now now' ttl m worker rows o ≡ claimed now worker rows o
found-claimed now now' ttl m worker rows none = refl
found-claimed now now' ttl m worker rows (some e) = refl

-- On PostgreSQL a worker gets the first candidate of its tenant by creation time and then by id,
-- with the lock in the table; it gets nothing, and the table is unchanged, only if no row is a
-- candidate. A candidate is a ready row of the tenant that no other transaction holds locked.
pub acquire_next_first :
    (skipped : Event → Bool) (now now' : Time) (ttl m tenant : ℕ) (worker : String)
    (rows : List Event)
    → (o : Option Event) × Found (candidate skipped now ttl m tenant) rows o
      × (acquire_next postgresql skipped now now' ttl m tenant worker rows
          ≡ claimed now worker rows o)
unfolding acquire_next
acquire_next_first skipped now now' ttl m tenant worker rows =
    let q = candidate skipped now ttl m tenant in
    let o = earliest (select q rows) in
    (o, earliest-Found q rows, found-claimed now now' ttl m worker rows o)

-- The query's row is the one that the table has under its id.
pub get-earliest :
    (q : Event → Bool) (rows : List Event) (x : Event)
    → IsKeyed event_id rows
    → earliest (select q rows) ≡ some x
    → get_event x.id rows ≡ some x
unfolding earliest select find?
get-earliest q [] x keyed h = ground arith
get-earliest q (y ∷ rows) x keyed h = elim (Option-cases (earliest (select q rows))) [
  | inl nothing ↦ ground (arith, nothing)
  | inr (z, e) ↦ ground (arith, e, get-earliest q rows z keyed.1 e)
]
