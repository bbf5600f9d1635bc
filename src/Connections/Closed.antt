-- ===== src/Connections/Closed.antt =====
-- Revoking and deleting a connection, and the calls of other tenants on it.
use threatforge.Common.{
  ℕ, String, ◌≡◌, refl, Bool, false, not, ◌&&◌, Option, none, some, List, [], ◌∷◌, ok, err, arith,
  any, find?, find?-holds, update, ◌==◌, ==_iff, is_none, get_row, get_row-found, IsKeyed,
  Bool-cases, inl, inr, sym, ◌∙◌,
}
use threatforge.Models.{Time, Json, Dict, Connection, Source, ConnectionStatus}
use threatforge.Outbox.{not_found}
use threatforge.Ingest.{Db, owns, is_live, resolve_active_pair, not_allowed}
use threatforge.Connections.{
  service, ProviderIdentity, get_connection, flush_connection, bind_bot_identity, revoke_connection,
  soft_delete_connection, set_connection_enabled, set_connection_health, revoked, deleted,
  same_identity, connection_id, or_now,
}

get-foreign :
    (tenant id : ℕ) (rows : List Connection)
    → find? (λ c. (c.id == id) && (c.tenant_id == tenant)) rows ≡ none
    → get_connection tenant id rows ≡ none
unfolding find? get_connection
get-foreign tenant id [] h = refl
get-foreign tenant id (c ∷ rows) h = ground (arith, get-foreign tenant id rows)

-- A tenant without a connection of this id can neither bind, revoke, delete, switch nor report on
-- it: each call raises `NotFound` and changes nothing, even where another tenant has such a row.
pub strangers_not_found :
    (clean : String → String) (now : Time) (tenant id : ℕ) (identity : ProviderIdentity)
    (flag : Bool) (actor : Option String) (health : Dict Json) (rows : List Connection)
    → find? (λ c. (c.id == id) && (c.tenant_id == tenant)) rows ≡ none
    → (bind_bot_identity clean now tenant id identity flag rows ≡ (err (service not_found), rows))
      × (revoke_connection now tenant id actor rows ≡ (err (service not_found), rows))
      × (soft_delete_connection now tenant id actor rows ≡ (err (service not_found), rows))
      × (set_connection_enabled now tenant id flag rows ≡ (err (service not_found), rows))
      × (set_connection_health now tenant id health rows ≡ (err (service not_found), rows))
unfolding bind_bot_identity revoke_connection soft_delete_connection set_connection_enabled
    set_connection_health
strangers_not_found clean now tenant id identity flag actor health rows foreign =
    rw (get-foreign tenant id rows foreign) (refl, refl, refl, refl, refl)

-- A row that is disabled is in no index.
disabled_apart :
    (c : Connection) (rows : List Connection)
    → c.enabled ≡ false
    → any (λ x. not (x.id == c.id) && same_identity c x) rows ≡ false
unfolding any
disabled_apart c [] off = refl
disabled_apart c (x ∷ rows) off = ground (arith, off, disabled_apart c rows)

disabled_flushes :
    (c : Connection) (rows : List Connection)
    → c.enabled ≡ false
    → flush_connection c rows ≡ (ok c, update (λ x. x.id == c.id) (λ _. c) rows)
unfolding flush_connection
disabled_flushes c rows off = rw (disabled_apart c rows off) refl

connection-found :
    (tenant id : ℕ) (rows : List Connection) (c : Connection)
    → IsKeyed connection_id rows
    → get_connection tenant id rows ≡ some c
    → (get_row connection_id c.id rows ≡ some c) × (c.tenant_id ≡ tenant) × (c.id ≡ id)
unfolding get_connection
connection-found tenant id rows c keyed found =
    let p : Connection → Bool =
      λ x. (x.id == id) && ((x.tenant_id == tenant) && is_none x.deleted_at) in
    let holds = find?-holds p rows {x = c} found in
    (
      get_row-found connection_id p rows c keyed found,
      ground (arith, holds, ==_iff c.tenant_id tenant),
      ground (arith, holds, ==_iff c.id id),
    )

-- A source's connection is the row that is written over it.
put-owned :
    (c d : Connection) (s : Source) (rows : List Connection)
    → get_row connection_id c.id rows ≡ some c
    → d.id ≡ c.id
    → d.tenant_id ≡ s.tenant_id
    → s.connection_id ≡ c.id
    → find? (owns s) (update (λ x. x.id == c.id) (λ _. d) rows) ≡ some d
unfolding find? update
put-owned c d s [] found same tenant own = absurd (ground (arith, found))
put-owned c d s (x ∷ rows) found same tenant own = elim (Bool-cases (x.id == c.id)) [
  | inl hit ↦ rw (hit) (ground (arith, same, tenant, own))
  | inr miss ↦ rw (miss) (
      ground (arith, own, miss, put-owned c d s rows (ground (arith, found, miss)) same tenant own))
]

refused :
    (db : Db) (c : Connection) (s : Source)
    → find? (owns s) db.connections ≡ some c
    → c.enabled ≡ false
    → resolve_active_pair db s ≡ err not_allowed
unfolding resolve_active_pair is_live
refused db c s found off = rw (found) (ground (arith, off))

-- Revoking or deleting a connection succeeds on every connection that the tenant has, where the
-- primary keys are unique. The row is disabled, has the status revoked and carries the time and the
-- actor of the revocation, and of the deletion if it is deleted, which keeps the time of an earlier
-- revocation. On the table that the call returns, the check of an ingestion refuses each source
-- of the connection.
pub revoke_closes :
    (now : Time) (tenant id : ℕ) (actor : Option String) (db : Db) (c : Connection) (s : Source)
    → IsKeyed connection_id db.connections
    → get_connection tenant id db.connections ≡ some c
    → s.tenant_id ≡ tenant
    → s.connection_id ≡ id
    → let rows = db.connections in
      let r = record c {
        enabled = false;
        status = ConnectionStatus.revoked;
        revoked_at = some now;
        revoked_by = actor;
        updated_at = now;
      } in
      let d = record r {
        revoked_at = or_now now c.revoked_at;
        deleted_at = some now;
        deleted_by = actor;
      } in
      let at = λ (x : Connection). x.id == c.id in
      (revoke_connection now tenant id actor rows ≡ (ok r, update at (λ _. r) rows))
      × (soft_delete_connection now tenant id actor rows ≡ (ok d, update at (λ _. d) rows))
      × (resolve_active_pair (record db { connections = update at (λ _. r) rows }) s
          ≡ err not_allowed)
      × (resolve_active_pair (record db { connections = update at (λ _. d) rows }) s
          ≡ err not_allowed)
unfolding revoke_connection soft_delete_connection
revoke_closes now tenant id actor db c s keyed found owner own =
    let rows = db.connections in
    let at = λ (x : Connection). x.id == c.id in
    let r = revoked now actor c in
    let d = deleted now actor c in
    let here = connection-found tenant id rows c keyed found in
    let row = here.0 in
    (
      rw (found) (disabled_flushes r rows refl),
      rw (found) (disabled_flushes d rows refl),
      refused (record db { connections = update at (λ _. r) rows }) r s
          (put-owned c r s rows row refl (here.1 ∙ sym owner) (own ∙ sym here.2)) refl,
      refused (record db { connections = update at (λ _. d) rows }) d s
          (put-owned c d s rows row refl (here.1 ∙ sym owner) (own ∙ sym here.2)) refl,
    )
