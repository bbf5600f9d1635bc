-- ===== src/Worker/Polls.antt =====
-- A cycle over a connection that may be polled is the loop over its batch, and its close.
use threatforge.Common.{ℕ, String, ◌≡◌, refl, true, false, some, ok, str_eq}
use threatforge.Models.{Connection, lookup}
use threatforge.Connections.{list_sources}
use threatforge.Worker.{
  Env, Store, nothing_done, CollectionProvider, Batch, take_all, connection_of, close_cycle,
  run_connection_once, is_pollable,
}

pub polls :
    (env : Env) (tenant id : ℕ) (st : Store) (c : Connection) (p : CollectionProvider)
    (ref : String) (batch : Batch)
    → connection_of env tenant id st ≡ some c
    → is_pollable c ≡ true
    → env.providers c.provider ≡ some p
    → lookup "bot_token" c.secret_refs ≡ some ref
    → str_eq ref "" ≡ false
    → p.poll ref c.cursor c.config_json ≡ ok batch
    → run_connection_once env tenant id st
      ≡ close_cycle env tenant id batch.health (
          take_all env tenant id p
            (list_sources tenant (some id) st.sources)
            batch.updates
            0
            nothing_done
            st)
unfolding run_connection_once
polls env tenant id st c p ref batch found due served held there polled =
    rw (found) (rw (due) (rw (served) (rw (held) (rw (there) (rw (polled) refl)))))
