-- ===== src/Worker/Halted.antt =====
-- `run_all_once` of app/collection/worker.py, where the cycle of one connection raises.
use threatforge.Common.{
  ℕ, suc, ◌+◌, ◌≡◌, ◌≢◌, refl, sym, ap, ◌∙◌, subst, List, [], ◌∷◌, ◌++◌, ok, err, arith, All,
  length, get_row,
}
use threatforge.Models.{Connection}
use threatforge.Connections.{connection_id}
use threatforge.Worker.{
  Env, Store, WorkerError, WorkerOutcome, due_connections, run_connection_once, run_each,
  run_all_once,
}
use threatforge.Worker.Isolation.{cycle_isolated}

-- The connections of the list are run, and `st'` is the state after the last of them.
abbrev pub Ran : (ℕ → Env) → ℕ → List Connection → Store → Store → Type 0
Ran world k [] st st' = st' ≡ st
Ran world k (c ∷ rows) st st' =
    (o : WorkerOutcome) × (st1 : Store) × (run_connection_once (world k) c.tenant_id c.id st
      ≡ (ok o, st1))
    × Ran world (suc k) rows st1 st'

module _ (world : ℕ → Env) (c : Connection) (later : List Connection) (e : WorkerError)
    (st' st2 : Store) where
  halted :
      (k : ℕ) (before : List Connection) (st : Store)
      → Ran world k before st st'
      → run_connection_once (world (length before + k)) c.tenant_id c.id st' ≡ (err e, st2)
      → run_each world k (before ++ (c ∷ later)) st ≡ (err e, st2)
  unfolding run_each
  halted k [] st ran raised =
      let here : run_connection_once (world k) c.tenant_id c.id st' ≡ (err e, st2) =
        subst (λ i. run_connection_once (world i) c.tenant_id c.id st' ≡ (err e, st2)) (omega arith)
          raised in
      rw (sym ran) (rw (here) refl)
  halted k (x ∷ before) st (o, st1, one, ran) raised = rw (one) (
      rw
        (halted (suc k) before st1 ran (
          subst (λ i. run_connection_once (world i) c.tenant_id c.id st' ≡ (err e, st2))
            (omega arith) raised))
        refl)

untouched :
    (world : ℕ → Env) (j k : ℕ) (before : List Connection) (st st' : Store)
    → Ran world k before st st'
    → All (λ x. j ≢ x.id) before
    → get_row connection_id j st'.db.connections ≡ get_row connection_id j st.db.connections
untouched world j k [] st st' ran apart = ap (λ s. get_row connection_id j s.db.connections) ran
untouched world j k (x ∷ before) st st' (o, st1, one, ran) apart =
    untouched world j (suc k) before st1 st' ran apart.1
    ∙ ap (λ r. get_row connection_id j r.1.db.connections) (sym one)
    ∙ cycle_isolated (world k) x.tenant_id x.id j apart.0 st

-- If the cycle of a connection that is due raises, the whole run raises the same error, whatever
-- connections are due after it: no other row than those of the connections that came before and of
-- the one that raised has changed.
pub cycle_halts :
    (world : ℕ → Env) (st st' st2 : Store) (before later : List Connection) (c : Connection)
    (e : WorkerError) (j : ℕ)
    → due_connections st.db.connections ≡ before ++ (c ∷ later)
    → Ran world 0 before st st'
    → run_connection_once (world (length before)) c.tenant_id c.id st' ≡ (err e, st2)
    → All (λ x. j ≢ x.id) before
    → j ≢ c.id
    → (run_all_once world st ≡ (err e, st2))
      × (get_row connection_id j st2.db.connections ≡ get_row connection_id j st.db.connections)
unfolding run_all_once
cycle_halts world st st' st2 before later c e j due ran raised apart other = (
  rw (due) (
      halted world c later e st' st2 0 before st ran (
        subst (λ i. run_connection_once (world i) c.tenant_id c.id st' ≡ (err e, st2)) (omega arith)
          raised)),
  ap (λ r. get_row connection_id j r.1.db.connections) (sym raised)
      ∙ cycle_isolated (world (length before)) c.tenant_id c.id j other st'
      ∙ untouched world j 0 before st st' ran apart,
)
