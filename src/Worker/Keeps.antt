-- ===== src/Worker/Keeps.antt =====
-- What a cycle over one connection keeps: the index of the events, and every other connection.
use threatforge.Common.{
  ℕ, suc, String, not, Option, none, some, List, [], ◌∷◌, Result, ok, err, inl, inr, str_eq,
  Bool-cases,
}
use threatforge.Models.{Json, Dict, Connection, Source, lookup}
use threatforge.Connections.{list_sources, connection_health}
use threatforge.Worker.{
  Env, completed, failed, outcome_of, health_dict, finished_health, interrupted_health,
  event_metrics, retry_json, Store, Tally, nothing_done, LoopEnd, finished, interrupted, raised,
  WorkerOutcome, CollectionProvider, Batch, BatchHealth, ProviderFailure, step, take_all, proceed,
  connection_of, write_health, cannot_poll, close_interrupted, close_finished, close_cycle,
  after_poll, with_secret, with_provider, run_connection, run_connection_once, provider_diagnostic,
  is_pollable,
}

-- What every step keeps, the loop keeps.
module _ (env : Env) (tenant id : ℕ) (p : CollectionProvider) (active : List Source)
    (P : Store → Type 0)
    (keep : (i : ℕ) (raw : Dict Json) (t : Tally) (st : Store)
      → P st
      → P (step env tenant id p active (env.turns i) raw t st).1) where
  proceed-keeps :
      (rest : Tally → Store → LoopEnd × Store)
      → ((t : Tally) (st : Store) → P st → P (rest t st).1)
      → (r : LoopEnd × Store) → P r.1
      → P (proceed env tenant id p active rest r).1
  proceed-keeps rest keeps (finished t, st) h = keeps t st h
  proceed-keeps rest keeps (interrupted t, st) h = h
  proceed-keeps rest keeps (raised e, st) h = h

  take_all-keeps :
      (raws : List (Dict Json)) (i : ℕ) (t : Tally) (st : Store)
      → P st
      → P (take_all env tenant id p active raws i t st).1
  unfolding take_all
  take_all-keeps [] i t st h = h
  take_all-keeps (raw ∷ raws) i t st h =
      proceed-keeps (take_all env tenant id p active raws (suc i)) (take_all-keeps raws (suc i))
        (step env tenant id p active (env.turns i) raw t st) (keep i raw t st h)

-- What the steps and the write of the telemetry keep, the cycle keeps.
module _ (env : Env) (tenant id : ℕ) (P : Store → Type 0)
    (keep : (p : CollectionProvider) (i : ℕ) (raw : Dict Json) (t : Tally) (st st0 : Store)
      → P st
      → P
          (step env tenant id p
            (list_sources tenant (some id) st0.sources)
            (env.turns i)
            raw
            t
            st).1)
    (told : (health : Dict Json) (outcome : Connection → WorkerOutcome) (st : Store)
      → P st
      → P (write_health env tenant id health outcome st).1) where
  finished-keeps :
      (b : BatchHealth) (t : Tally) (st : Store) (o : Option Connection)
      → P st
      → P (close_finished env tenant id b t st o).1
  finished-keeps b t st none h = h
  finished-keeps b t st (some c) h =
      told
        (finished_health env.int_of_text t.processed t.deduplicated t.rejected t.ignored
          (event_metrics env.iso tenant id st.sources st.db.events)
          (connection_health c.config_json) (health_dict env.iso_now b))
        (outcome_of env tenant id completed t "") st h

  interrupted-keeps :
      (t : Tally) (st : Store) (o : Option Connection)
      → P st
      → P (close_interrupted env tenant id t st o).1
  interrupted-keeps t st none h = h
  interrupted-keeps t st (some c) h =
      told
        (interrupted_health env.iso_now env.int_of_text t.processed t.deduplicated t.rejected
          t.ignored (connection_health c.config_json))
        (outcome_of env tenant id failed t "ingest_infrastructure_error") st h

  close-keeps :
      (b : BatchHealth) (r : LoopEnd × Store) → P r.1 → P (close_cycle env tenant id b r).1
  unfolding close_cycle
  close-keeps b (finished t, st) h = finished-keeps b t st (connection_of env tenant id st) h
  close-keeps b (interrupted t, st) h = interrupted-keeps t st (connection_of env tenant id st) h
  close-keeps b (raised e, st) h = h

  cannot-keeps :
      (c : Connection) (state code : String) (st : Store)
      → P st
      → P (cannot_poll env tenant id c state code st).1
  cannot-keeps c state code st h =
      told
        (("state", Json.str state)
          ∷ ("checked_at", Json.str env.iso_now)
          ∷ ("error_code", Json.str code)
          ∷ [])
        (λ _. outcome_of env tenant id failed nothing_done code c) st h

  poll-keeps :
      (p : CollectionProvider) (c : Connection) (st : Store) (r : Result ProviderFailure Batch)
      → P st
      → P (after_poll env tenant id p c st r).1
  poll-keeps p c st (err e) h =
      let d = provider_diagnostic e in
      told
        (("state", Json.str d.state)
          ∷ ("checked_at", Json.str env.iso_now)
          ∷ ("error_code", Json.str d.code)
          ∷ ("retry_after_seconds", retry_json d.retry_after_seconds)
          ∷ [])
        (λ _. outcome_of env tenant id failed nothing_done d.code c) st h
  poll-keeps p c st (ok batch) h =
      let active = list_sources tenant (some id) st.sources in
      close-keeps batch.health (take_all env tenant id p active batch.updates 0 nothing_done st) (
        take_all-keeps env tenant id p active P (λ i raw t x. keep p i raw t x st) batch.updates 0
          nothing_done st h)

  secret-keeps :
      (p : CollectionProvider) (c : Connection) (st : Store) (o : Option String)
      → P st
      → P (with_secret env tenant id p c st o).1
  secret-keeps p c st none h = cannot-keeps c "unauthorized" "credential_unavailable" st h
  secret-keeps p c st (some ref) h = elim (Bool-cases (str_eq ref "")) [
    | inl blank ↦ rw (blank) (cannot-keeps c "unauthorized" "credential_unavailable" st h)
    | inr there ↦ rw (there) (poll-keeps p c st (p.poll ref c.cursor c.config_json) h)
  ]

  provider-keeps :
      (c : Connection) (st : Store) (o : Option CollectionProvider)
      → P st
      → P (with_provider env tenant id c st o).1
  provider-keeps c st none h = cannot-keeps c "offline" "provider_unavailable" st h
  provider-keeps c st (some p) h = secret-keeps p c st (lookup "bot_token" c.secret_refs) h

  run-keeps : (st : Store) (o : Option Connection) → P st → P (run_connection env tenant id st o).1
  run-keeps st none h = h
  run-keeps st (some c) h = elim (Bool-cases (not (is_pollable c))) [
    | inl shut ↦ rw (shut) h
    | inr due ↦ rw (due) (provider-keeps c st (env.providers c.provider) h)
  ]

  pub cycle-keeps : (st : Store) → P st → P (run_connection_once env tenant id st).1
  unfolding run_connection_once
  cycle-keeps st h = run-keeps st (connection_of env tenant id st) h
