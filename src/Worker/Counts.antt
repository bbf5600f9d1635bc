-- ===== src/Worker/Counts.antt =====
-- The counters of a cycle, and the codes of its outcomes.
use threatforge.Common.{
  ℕ, suc, ◌+◌, ◌<◌, String, ◌≡◌, sym, ap, ◌∙◌, subst, true, false, Option, none, some, List, [],
  ◌∷◌, Result, ok, err, arith, length, str_eq,
}
use threatforge.Models.{Json, Dict, Connection, Source, lookup}
use threatforge.Ingest.{
  Db, IngestError, not_allowed, infrastructure, provider_raised, IngestResult, Outcome,
  ingest_update,
}
use threatforge.Connections.{CallError, set_connection_health, list_sources, connection_health}
use threatforge.Worker.Polls.{polls}
use threatforge.Worker.{
  health_dict, finished_health, interrupted_health, event_metrics, Env, Turn, Store, Tally,
  nothing_done, counted, LoopEnd, finished, interrupted, raised, WorkerError, WorkerOutcome,
  CycleStatus, disabled, failed, completed, CollectionProvider, Batch, BatchHealth, step, step_at,
  take_update, take_all, proceed, ignore_update, ignore_at, after_ingest, active_by_ref,
  update_cursor, text_or_empty, connection_of, with_outcome, close_interrupted, close_finished,
  close_cycle, run_connection_once, is_pollable, outcome_of,
}

abbrev pub total : Tally → ℕ
total t = t.processed + t.deduplicated + t.rejected + t.ignored

-- What `k` updates make of a count of `n`.
abbrev Accounts : ℕ → ℕ → LoopEnd → Type 0
Accounts n k (finished t) = total t ≡ n + k
Accounts n k (interrupted t) = total t < n + k
Accounts n k (raised e) = Unit

total-counted : (o : Outcome) (t : Tally) → total (counted o t) ≡ total t + 1
total-counted Outcome.normalized t = omega arith
total-counted Outcome.control t = omega arith
total-counted Outcome.rejected t = omega arith
total-counted Outcome.deduplicated t = omega arith

module _ (env : Env) (tenant id : ℕ) (p : CollectionProvider) (active : List Source) where
  ignored-Accounts :
      (t : Tally) (st : Store) (v : String) (o : Option Connection)
      → Accounts (total t) 1 (ignore_at env tenant id v t st o).0
  ignored-Accounts t st v none = tt
  ignored-Accounts t st v (some c) = omega arith

  skipped-Accounts :
      (t : Tally) (st : Store) (v : Option String)
      → Accounts (total t) 1 (ignore_update env tenant id v t st).0
  skipped-Accounts t st none = omega arith
  skipped-Accounts t st (some v) = ignored-Accounts t st v (connection_of env tenant id st)

  ingested-Accounts :
      (t : Tally) (st : Store) (r : Result IngestError IngestResult × Db)
      → Accounts (total t) 1 (after_ingest env tenant id t st r).0
  ingested-Accounts t st (ok res, db) = total-counted res.outcome t
  ingested-Accounts t st (err infrastructure, db) = omega arith
  ingested-Accounts t st (err not_allowed, db) = tt
  ingested-Accounts t st (err (provider_raised name), db) = tt

  taken-Accounts :
      (turn : Turn) (raw : Dict Json) (t : Tally) (st : Store) (o : Option Source)
      → Accounts (total t) 1 (take_update env tenant id p active turn raw t st o).0
  taken-Accounts turn raw t st none =
      skipped-Accounts t st (update_cursor env.run.repr (lookup "update_id" raw))
  taken-Accounts turn raw t st (some s) = ingested-Accounts t st (
      ingest_update env.run (record { validator = none; normalizer = p.normalize }) turn.now
        turn.new_id turn.weather s raw st.db)

  at-Accounts :
      (turn : Turn) (raw : Dict Json) (t : Tally) (st : Store) (r : Result String (Option String))
      → Accounts (total t) 1 (step_at env tenant id p active turn raw t st r).0
  at-Accounts turn raw t st (err name) = tt
  at-Accounts turn raw t st (ok ref) =
      taken-Accounts turn raw t st (active_by_ref (text_or_empty env tenant id p active ref) active)

  step-Accounts :
      (turn : Turn) (raw : Dict Json) (t : Tally) (st : Store)
      → Accounts (total t) 1 (step env tenant id p active turn raw t st).0
  unfolding step
  step-Accounts turn raw t st = at-Accounts turn raw t st (p.source_ref raw)

  Accounts-more : (n m k : ℕ) (e : LoopEnd) → m ≡ n + 1 → Accounts m k e → Accounts n (suc k) e
  Accounts-more n m k (finished t) same h = omega (arith, same, h)
  Accounts-more n m k (interrupted t) same h = omega (arith, same, h)
  Accounts-more n m k (raised e) same h = tt

  proceed-Accounts :
      (rest : Tally → Store → LoopEnd × Store) (n k : ℕ)
      → ((t : Tally) (st : Store) → Accounts (total t) k (rest t st).0)
      → (r : LoopEnd × Store) → Accounts n 1 r.0
      → Accounts n (suc k) (proceed env tenant id p active rest r).0
  proceed-Accounts rest n k later (finished t, st) h =
      Accounts-more n (total t) k (rest t st).0 h (later t st)
  proceed-Accounts rest n k later (interrupted t, st) h = omega (arith, h)
  proceed-Accounts rest n k later (raised e, st) h = tt

  take_all-Accounts :
      (raws : List (Dict Json)) (i : ℕ) (t : Tally) (st : Store)
      → Accounts (total t) (length raws) (take_all env tenant id p active raws i t st).0
  unfolding take_all
  take_all-Accounts [] i t st = omega arith
  take_all-Accounts (raw ∷ raws) i t st =
      proceed-Accounts (take_all env tenant id p active raws (suc i)) (total t) (length raws)
        (λ t' st'. take_all-Accounts raws (suc i) t' st')
        (step env tenant id p active (env.turns i) raw t st) (step-Accounts (env.turns i) raw t st)

-- The counters of a cycle, by how it ended, against the number of updates in the batch.
abbrev pub Accounted : ℕ → CycleStatus → ℕ → Type 0
Accounted n completed k = k ≡ n
Accounted n failed k = k < n
Accounted n disabled k = ⊥

abbrev OutcomeAccounted : ℕ → Result WorkerError WorkerOutcome → Type 0
OutcomeAccounted n (err e) = Unit
OutcomeAccounted n (ok o) = Accounted n o.status (total o.tally)

module _ (env : Env) (tenant id n : ℕ) where
  told-Accounted :
      (outcome : Connection → WorkerOutcome) (st : Store)
      (r : Result CallError Connection × List Connection)
      → ((c : Connection) → Accounted n (outcome c).status (total (outcome c).tally))
      → OutcomeAccounted n (with_outcome env tenant id outcome st r).0
  told-Accounted outcome st (err e, rows) h = tt
  told-Accounted outcome st (ok c, rows) h = h c

  finished-Accounted :
      (b : BatchHealth) (t : Tally) (st : Store) (o : Option Connection)
      → total t ≡ n
      → OutcomeAccounted n (close_finished env tenant id b t st o).0
  finished-Accounted b t st none h = tt
  finished-Accounted b t st (some c) h =
      told-Accounted (outcome_of env tenant id completed t "") st
        (set_connection_health env.now tenant id
          (finished_health env.int_of_text t.processed t.deduplicated t.rejected t.ignored
            (event_metrics env.iso tenant id st.sources st.db.events)
            (connection_health c.config_json) (health_dict env.iso_now b))
          st.db.connections)
        (λ _. h)

  interrupted-Accounted :
      (t : Tally) (st : Store) (o : Option Connection)
      → total t < n
      → OutcomeAccounted n (close_interrupted env tenant id t st o).0
  interrupted-Accounted t st none h = tt
  interrupted-Accounted t st (some c) h =
      told-Accounted (outcome_of env tenant id failed t "ingest_infrastructure_error") st
        (set_connection_health env.now tenant id
          (interrupted_health env.iso_now env.int_of_text t.processed t.deduplicated t.rejected
            t.ignored (connection_health c.config_json))
          st.db.connections)
        (λ _. h)

  close-Accounted :
      (b : BatchHealth) (r : LoopEnd × Store)
      → Accounts 0 n r.0
      → OutcomeAccounted n (close_cycle env tenant id b r).0
  unfolding close_cycle
  close-Accounted b (finished t, st) h =
      finished-Accounted b t st (connection_of env tenant id st) (omega (arith, h))
  close-Accounted b (interrupted t, st) h =
      interrupted-Accounted t st (connection_of env tenant id st) (omega (arith, h))
  close-Accounted b (raised e, st) h = tt

module _ (env : Env) (tenant id : ℕ) where
  -- A cycle that a connection, its provider and its secret let poll, and that ends with an outcome,
  -- has counted each update of the batch once if it completed, and fewer than the batch if the
  -- database failed.
  pub cycle_accounts :
      (st : Store) (c : Connection) (p : CollectionProvider) (ref : String) (batch : Batch)
      (o : WorkerOutcome)
      → connection_of env tenant id st ≡ some c
      → is_pollable c ≡ true
      → env.providers c.provider ≡ some p
      → lookup "bot_token" c.secret_refs ≡ some ref
      → str_eq ref "" ≡ false
      → p.poll ref c.cursor c.config_json ≡ ok batch
      → (run_connection_once env tenant id st).0 ≡ ok o
      → Accounted (length batch.updates) o.status (total o.tally)
  cycle_accounts st c p ref batch o found due served held there polled ran =
      subst (OutcomeAccounted (length batch.updates))
        (sym (
            ap (λ r. r.0) (polls env tenant id st c p ref batch found due served held there polled))
          ∙ ran)
        (close-Accounted env tenant id (length batch.updates) batch.health
          (take_all env tenant id p (list_sources tenant (some id) st.sources) batch.updates 0
            nothing_done st)
          (take_all-Accounts env tenant id p (list_sources tenant (some id) st.sources)
            batch.updates 0 nothing_done st))
