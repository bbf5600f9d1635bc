-- ===== src/Ingest/Effect.antt =====
-- What an ingestion leaves behind: the event and the cursor move together, or neither moves.
use threatforge.Common.{
  ℕ, String, ◌≡◌, ◌≢◌, refl, ◌∙◌, true, false, ◌||◌, Option, none, some, List, ◌∷◌, ◌++◌, Result,
  ok, err, inl, inr, arith, ◌==◌, update, Bool-cases, ◌⊎◌,
}
use threatforge.Models.{Time, Event, Connection, Source, TestRequest}
use threatforge.Ingest.{
  IngestError, infrastructure, Outcome, normalized, control, rejected, deduplicated, IngestResult,
  Db, Weather, Envelope, find_existing, advance_cursor, with_arrived, commit_event, violates, store,
  store_normalized, or_replay, done,
}

-- Nothing but what others have committed.
abbrev pub Unmoved : Weather → Db → Db → Type 0
Unmoved w db db' =
    (db'.connections ≡ db.connections)
    × ((db'.events ≡ db.events) ⊎ (db'.events ≡ w.arrived ++ db.events))
    × (db'.requests ≡ db.requests)

-- One event of the source, which the unique index admits, and the cursor of the connection.
abbrev pub Moved :
    Time → ℕ → Weather → Source → Connection → Option String → Db → Db → IngestResult → Type 0
Moved now new_id w s c cursor db db' res =
    (ev : Event) × (db'.events ≡ ev ∷ (w.arrived ++ db.events))
    × (ev.id ≡ new_id)
    × (res.event_id ≡ new_id)
    × (ev.tenant_id ≡ s.tenant_id)
    × (ev.source_id ≡ s.id)
    × (violates s ev (w.arrived ++ db.events) ≡ false)
    × (db'.connections ≡ update (λ x. x.id == c.id) (advance_cursor now cursor) db.connections)
    × (res.cursor ≡ (advance_cursor now cursor c).cursor)

abbrev pub EffectOf :
    Time
    → ℕ
    → Weather
    → Source
    → Connection
    → Option String
    → Db
    → Db
    → IngestResult
    → Outcome
    → Type 0
EffectOf now new_id w s c cursor db db' res deduplicated =
    Unmoved w db db' × (res.cursor ≡ c.cursor)
EffectOf now new_id w s c cursor db db' res _ = Moved now new_id w s c cursor db db' res

abbrev pub Effect :
    Time
    → ℕ
    → Weather
    → Source
    → Connection
    → Option String
    → Db
    → Result IngestError IngestResult × Db
    → Type 0
Effect now new_id w s c cursor db (err e, db') = Unmoved w db db'
Effect now new_id w s c cursor db (ok res, db') =
    EffectOf now new_id w s c cursor db db' res res.outcome

module _ (now : Time) (new_id : ℕ) (w : Weather) (s : Source) (c : Connection)
    (cursor : Option String) (db : Db) where
  commit-Moved :
      (res : IngestResult) (ev : Event) (requests : List TestRequest)
      → ev.id ≡ new_id
      → ev.tenant_id ≡ s.tenant_id
      → ev.source_id ≡ s.id
      → violates s ev (w.arrived ++ db.events) ≡ false
      → res.event_id ≡ ev.id
      → res.cursor ≡ (advance_cursor now cursor c).cursor
      → Moved now new_id w s c cursor db (commit_event now w c cursor ev requests db) res
  unfolding commit_event
  commit-Moved res ev requests id tenant source free named at_cursor =
      (ev, refl, id, named ∙ id, tenant, source, free, refl, at_cursor)

  failed-Unmoved : Unmoved w db (with_arrived w db)
  failed-Unmoved = (refl, inr refl, refl)

  -- A committed event of any outcome but a replay has moved the cursor.
  EffectOf-Moved :
      (outcome : Outcome) (db' : Db) (res : IngestResult)
      → outcome ≢ deduplicated
      → Moved now new_id w s c cursor db db' res
      → EffectOf now new_id w s c cursor db db' res outcome
  EffectOf-Moved normalized db' res other_outcome moved = moved
  EffectOf-Moved control db' res other_outcome moved = moved
  EffectOf-Moved rejected db' res other_outcome moved = moved
  EffectOf-Moved deduplicated db' res other_outcome moved = absurd (other_outcome refl)

  pub store_lost :
      (outcome : Outcome) (ev : Event) (requests : List TestRequest)
      → (w.broken || violates s ev (w.arrived ++ db.events)) ≡ true
      → store outcome now w s c cursor ev requests db ≡ (err infrastructure, with_arrived w db)
  unfolding store
  store_lost outcome ev requests lost = rw (lost, store)

  pub store_kept :
      (outcome : Outcome) (ev : Event) (requests : List TestRequest)
      → (w.broken || violates s ev (w.arrived ++ db.events)) ≡ false
      → store outcome now w s c cursor ev requests db
        ≡ (ok (done outcome ev now cursor c none), commit_event now w c cursor ev requests db)
  unfolding store
  store_kept outcome ev requests kept = rw (kept, store)

  pub store-Effect :
      (outcome : Outcome) (ev : Event) (requests : List TestRequest)
      → outcome ≢ deduplicated
      → ev.id ≡ new_id
      → ev.tenant_id ≡ s.tenant_id
      → ev.source_id ≡ s.id
      → Effect now new_id w s c cursor db (store outcome now w s c cursor ev requests db)
  store-Effect outcome ev requests fresh id tenant source =
      elim (Bool-cases (w.broken || violates s ev (w.arrived ++ db.events))) [
        | inl lost ↦ rw (store_lost outcome ev requests lost) failed-Unmoved
        | inr kept ↦ rw (store_kept outcome ev requests kept) (
            EffectOf-Moved outcome (commit_event now w c cursor ev requests db)
              (done outcome ev now cursor c none) fresh
              (commit-Moved (done outcome ev now cursor c none) ev requests id tenant source
                (ground (arith, kept)) refl refl))
      ]

  replay-Unmoved :
      (o : Option Event) → Effect now new_id w s c cursor db (or_replay c o, with_arrived w db)
  replay-Unmoved none = failed-Unmoved
  replay-Unmoved (some e) = (failed-Unmoved, refl)

  module _ (envelope : Envelope) (ev : Event) (requests : List TestRequest) where
    pub normalized_lost :
        w.broken ≡ true
        → store_normalized now w s c cursor envelope ev requests db
          ≡ (err infrastructure, with_arrived w db)
    unfolding store_normalized
    normalized_lost lost = simp (lost, store_normalized)

    pub normalized_twice :
        w.broken ≡ false
        → violates s ev (w.arrived ++ db.events) ≡ true
        → store_normalized now w s c cursor envelope ev requests db ≡ (
          or_replay c (find_existing s ev.external_id_hash (w.arrived ++ db.events)),
          with_arrived w db,
        )
    unfolding store_normalized
    normalized_twice up twice = simp (up, twice, store_normalized)

    pub normalized_kept :
        w.broken ≡ false
        → violates s ev (w.arrived ++ db.events) ≡ false
        → store_normalized now w s c cursor envelope ev requests db ≡ (
          ok (done normalized ev now cursor c (some envelope)),
          commit_event now w c cursor ev requests db,
        )
    unfolding store_normalized
    normalized_kept up free = simp (up, free, store_normalized)

  pub store_normalized-Effect :
      (envelope : Envelope) (ev : Event) (requests : List TestRequest)
      → ev.id ≡ new_id
      → ev.tenant_id ≡ s.tenant_id
      → ev.source_id ≡ s.id
      → Effect now new_id w s c cursor db
          (store_normalized now w s c cursor envelope ev requests db)
  store_normalized-Effect envelope ev requests id tenant source = elim (Bool-cases w.broken) [
    | inl lost ↦ rw (normalized_lost envelope ev requests lost) failed-Unmoved
    | inr up ↦ elim (Bool-cases (violates s ev (w.arrived ++ db.events))) [
      | inl twice ↦
          rw (normalized_twice envelope ev requests up twice)
            (replay-Unmoved (find_existing s ev.external_id_hash (w.arrived ++ db.events)))
      | inr free ↦ rw (normalized_kept envelope ev requests up free) (
          commit-Moved (done normalized ev now cursor c (some envelope)) ev requests id tenant
            source free refl refl)
    ]
  ]
