-- ===== src/Worker/Steps.antt =====
-- What one step of the loop can change.
use threatforge.Common.{
  ℕ, String, ◌≡◌, refl, Option, none, some, List, Result, ok, err, update, ◌==◌,
}
use threatforge.Models.{Json, Dict, Connection, Source, lookup}
use threatforge.Ingest.{
  Db, IngestError, not_allowed, infrastructure, provider_raised, IngestResult, ingest_update,
}
use threatforge.Worker.{
  Env, Turn, Store, Tally, CollectionProvider, step, step_at, take_update, ignore_update, ignore_at,
  after_ingest, active_by_ref, update_cursor, text_or_empty, connection_of, with_connections,
  move_cursor,
}

module _ (env : Env) (tenant id : ℕ) (p : CollectionProvider) (active : List Source) (turn : Turn)
    (raw : Dict Json) (P : Store → Type 0) (st : Store)
    (ignored : (v : String) (c : Connection)
      → connection_of env tenant id st ≡ some c
      → P (
          with_connections
            (update (λ x. x.id == c.id) (move_cursor env tenant id v) st.db.connections)
            st))
    (ingested : (ref : String) (s : Source)
      → active_by_ref ref active ≡ some s
      → P (record st {
        db =
            (ingest_update env.run
              (record { validator = none; normalizer = p.normalize })
              turn.now
              turn.new_id
              turn.weather
              s
              raw
              st.db).1;
      }))
    (h : P st) where
  ignore-keeps :
      (t : Tally) (v : String) (o : Option Connection)
      → connection_of env tenant id st ≡ o
      → P (ignore_at env tenant id v t st o).1
  ignore-keeps t v none found = h
  ignore-keeps t v (some c) found = ignored v c found

  skip-keeps : (t : Tally) (v : Option String) → P (ignore_update env tenant id v t st).1
  skip-keeps t none = h
  skip-keeps t (some v) = ignore-keeps t v (connection_of env tenant id st) refl

  after-keeps :
      (t : Tally) (r : Result IngestError IngestResult × Db)
      → P (record st { db = r.1 })
      → P (after_ingest env tenant id t st r).1
  after-keeps t (ok res, db) k = k
  after-keeps t (err infrastructure, db) k = k
  after-keeps t (err not_allowed, db) k = k
  after-keeps t (err (provider_raised name), db) k = k

  take-keeps :
      (t : Tally) (ref : String) (o : Option Source)
      → active_by_ref ref active ≡ o
      → P (take_update env tenant id p active turn raw t st o).1
  take-keeps t ref none found = skip-keeps t (update_cursor env.run.repr (lookup "update_id" raw))
  take-keeps t ref (some s) found =
      after-keeps t
        (ingest_update env.run (record { validator = none; normalizer = p.normalize }) turn.now
          turn.new_id turn.weather s raw st.db)
        (ingested ref s found)

  at-keeps :
      (t : Tally) (r : Result String (Option String))
      → P (step_at env tenant id p active turn raw t st r).1
  at-keeps t (err name) = h
  at-keeps t (ok ref) =
      take-keeps t (text_or_empty env tenant id p active ref)
        (active_by_ref (text_or_empty env tenant id p active ref) active) refl

  pub step-keeps : (t : Tally) → P (step env tenant id p active turn raw t st).1
  unfolding step
  step-keeps t = at-keeps t (p.source_ref raw)
