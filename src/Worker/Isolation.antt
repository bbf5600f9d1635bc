-- ===== src/Worker/Isolation.antt =====
-- `run_connection_once` of app/collection/worker.py, against the other connections.
use threatforge.Common.{
  ℕ, String, ◌≡◌, ◌≢◌, refl, sym, ap, ◌∙◌, subst, ◌&&◌, Option, none, some, List, [], ◌∷◌, Result,
  ok, err, inl, inr, ◌⊎◌, arith, All, All-select, All-order_by, select, find?, find?-holds, update,
  get_row, ◌==◌, is_none, Option-cases,
}
use threatforge.Models.{Time, Json, Dict, Connection, Source}
use threatforge.Ingest.{
  Db, Weather, IngestError, IngestResult, Outcome, normalized, control, rejected, deduplicated,
  Provider, ingest_update, owns, extract_cursor, advance_cursor,
}
use threatforge.Ingest.Effect.{Effect, EffectOf}
use threatforge.Ingest.Atomic.{ingest_cases}
use threatforge.Connections.{
  CallError, connection_id, get_connection, set_connection_health, flush_connection, on_connection,
  reported, merged_health, list_sources, source_id,
}
use threatforge.Worker.{
  Env, Turn, Store, WorkerOutcome, active_by_ref, with_connections, move_cursor, with_outcome,
  run_connection_once,
}
use threatforge.Connections.Issued.{connection-id}
use threatforge.Worker.Keeps.{cycle-keeps}
use threatforge.Worker.Steps.{step-keeps}

module _ (env : Env) (tenant id : ℕ) where
  told-keeps :
      (P : Store → Type 0) (outcome : Connection → WorkerOutcome) (st : Store)
      (r : Result CallError Connection × List Connection)
      → P (with_connections r.1 st)
      → P (with_outcome env tenant id outcome st r).1
  told-keeps P outcome st (ok c, rows) h = h
  told-keeps P outcome st (err e, rows) h = h

active-All :
    (P : Source → Type 0) (ref : String) (rows : List Source) (s : Source)
    → All P rows
    → active_by_ref ref rows ≡ some s
    → P s
unfolding active_by_ref
active-All P ref [] s h found = absurd (ground (arith, found))
active-All P ref (x ∷ rows) s h found = elim (Option-cases (active_by_ref ref rows)) [
  | inr (y, later) ↦ active-All P ref rows s h.1 (ground (arith, later, found))
  | inl none_later ↦ subst P (ground (arith, none_later, found)) h.0
]

abbrev IsOf : ℕ → Source → Type 0
IsOf id s = s.connection_id ≡ id

listed-All :
    (tenant id : ℕ) (rows : List Source) → All (IsOf id) (list_sources tenant (some id) rows)
unfolding list_sources
listed-All tenant id rows =
    let found =
      select (λ s. ((s.tenant_id == tenant) && is_none s.deleted_at) && (s.connection_id == id))
        rows in
    All-order_by (IsOf id) source_id found (
      All-select (IsOf id)
        (λ s. ((s.tenant_id == tenant) && is_none s.deleted_at) && (s.connection_id == id)) rows
        (λ s hit. ground (arith, hit)))

-- Writing one row leaves the others.
get-update_other :
    (j k : ℕ) (f : Connection → Connection) (rows : List Connection)
    → ((c : Connection) → c.id ≡ k → (f c).id ≡ k)
    → j ≢ k
    → get_row connection_id j (update (λ x. x.id == k) f rows) ≡ get_row connection_id j rows
unfolding find? update
get-update_other j k f [] keeps apart = refl
get-update_other j k f (x ∷ rows) keeps apart =
    ground (arith, keeps x, get-update_other j k f rows keeps apart)

get-flush :
    (j : ℕ) (d : Connection) (rows : List Connection)
    → j ≢ d.id
    → get_row connection_id j (flush_connection d rows).1 ≡ get_row connection_id j rows
unfolding flush_connection
get-flush j d rows apart =
    ground (arith, get-update_other j d.id (λ _. d) rows (λ c at. refl) apart)

advance-id :
    (now : Time) (cursor : Option String) (c : Connection) → (advance_cursor now cursor c).id ≡ c.id
advance-id now none c = refl
advance-id now (some v) c = refl

-- The connections after an ingestion through `c`.
Moves : Time → Option String → Connection → Db → Db → Type 0
Moves now cursor c db db' =
    (db'.connections ≡ db.connections)
    ⊎ (db'.connections ≡ update (λ x. x.id == c.id) (advance_cursor now cursor) db.connections)

EffectOf-Moves :
    (now : Time) (new_id : ℕ) (w : Weather) (s : Source) (c : Connection) (cursor : Option String)
    (db db' : Db) (res : IngestResult) (o : Outcome)
    → EffectOf now new_id w s c cursor db db' res o
    → Moves now cursor c db db'
unfolding Moves
EffectOf-Moves now new_id w s c cursor db db' res deduplicated h = inl h.0.0
EffectOf-Moves now new_id w s c cursor db db' res normalized (_, _, _, _, _, _, _, moved, _) =
    inr moved
EffectOf-Moves now new_id w s c cursor db db' res control (_, _, _, _, _, _, _, moved, _) =
    inr moved
EffectOf-Moves now new_id w s c cursor db db' res rejected (_, _, _, _, _, _, _, moved, _) =
    inr moved

Effect-Moves :
    (now : Time) (new_id : ℕ) (w : Weather) (s : Source) (c : Connection) (cursor : Option String)
    (db : Db) (r : Result IngestError IngestResult × Db)
    → Effect now new_id w s c cursor db r
    → Moves now cursor c db r.1
unfolding Moves
Effect-Moves now new_id w s c cursor db (err e, db') h = inl h.0
Effect-Moves now new_id w s c cursor db (ok res, db') h =
    EffectOf-Moves now new_id w s c cursor db db' res res.outcome h

Moves-apart :
    (j : ℕ) (now : Time) (cursor : Option String) (c : Connection) (db db' : Db)
    → j ≢ c.id
    → Moves now cursor c db db'
    → get_row connection_id j db'.connections ≡ get_row connection_id j db.connections
unfolding Moves
Moves-apart j now cursor c db db' apart (inl same) = ap (get_row connection_id j) same
Moves-apart j now cursor c db db' apart (inr moved) =
    ap (get_row connection_id j) moved
    ∙ get-update_other j c.id (advance_cursor now cursor) db.connections
        (λ x at. advance-id now cursor x ∙ at) apart

module _ (env : Env) (tenant id j : ℕ) (apart : j ≢ id) where
  get-told :
      (health : Dict Json) (rows : List Connection) (o : Option Connection)
      → get_connection tenant id rows ≡ o
      → get_row connection_id j
          (on_connection (λ c. flush_connection (reported env.now health c)) o rows).1
        ≡ get_row connection_id j rows
  unfolding merged_health
  get-told health rows none found = refl
  get-told health rows (some c) found =
      get-flush j (reported env.now health c) rows
        (subst (λ k. j ≢ k) (sym (connection-id tenant id rows c found)) apart)

  get-ignored :
      (v : String) (rows : List Connection) (c : Connection)
      → get_connection tenant id rows ≡ some c
      → get_row connection_id j (update (λ x. x.id == c.id) (move_cursor env tenant id v) rows)
        ≡ get_row connection_id j rows
  get-ignored v rows c found =
      get-update_other j c.id (move_cursor env tenant id v) rows (λ x at. at)
        (subst (λ k. j ≢ k) (sym (connection-id tenant id rows c found)) apart)

  get-ingested :
      (provider : Provider) (turn : Turn) (s : Source) (raw : Dict Json) (db : Db)
      → s.connection_id ≡ id
      → get_row connection_id j
          (ingest_update env.run provider turn.now turn.new_id turn.weather s raw db).1.connections
        ≡ get_row connection_id j db.connections
  get-ingested provider turn s raw db own =
      elim (ingest_cases env.run provider turn.now turn.new_id turn.weather s raw db) [
        | inl refused ↦ rw (refused) refl
        | inr (c, found, live, effect) ↦
            Moves-apart j turn.now (extract_cursor env.run.repr raw) c db
              (ingest_update env.run provider turn.now turn.new_id turn.weather s raw db).1
              (subst (λ k. j ≢ k)
                (sym (ground (arith, own, find?-holds (owns s) db.connections {x = c} found)))
                apart)
              (Effect-Moves turn.now turn.new_id turn.weather s c (extract_cursor env.run.repr raw)
                db (ingest_update env.run provider turn.now turn.new_id turn.weather s raw db)
                effect)
      ]

  abbrev Same : Store → Store → Type 0
  Same before st =
      get_row connection_id j st.db.connections ≡ get_row connection_id j before.db.connections

  -- A cycle over one connection leaves every other connection as it is, whoever owns it, whatever
  -- the provider delivers or raises and however the cycle ends.
  pub cycle_isolated :
      (st : Store)
      → get_row connection_id j (run_connection_once env tenant id st).1.db.connections
        ≡ get_row connection_id j st.db.connections
  unfolding set_connection_health
  cycle_isolated before =
      cycle-keeps env tenant id (Same before)
        (λ p i raw t x x0 k.
          step-keeps env tenant id p (list_sources tenant (some id) x0.sources) (env.turns i) raw
            (Same before) x (λ v c found. get-ignored v x.db.connections c found ∙ k)
            (λ ref s found.
              get-ingested (record { validator = none; normalizer = p.normalize }) (env.turns i) s
                raw x.db
                (active-All (IsOf id) ref (list_sources tenant (some id) x0.sources) s
                  (listed-All tenant id x0.sources) found)
              ∙ k)
            k t)
        (λ health outcome x k.
          told-keeps env tenant id (Same before) outcome x
            (set_connection_health env.now tenant id health x.db.connections)
            (get-told health x.db.connections (get_connection tenant id x.db.connections) refl ∙ k))
        before refl
