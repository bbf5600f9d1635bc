-- ===== src/Connections.antt =====
-- The connections and the sources of app/collection/service.py. A call flushes one changed row; the
-- unique index `uq_coll_conn_active_identity` of app/models.py may refuse it.
mod Health
mod Sources
unfoldable pub use Health.*
unfoldable pub use Sources.*
pub mod Create
pub mod Bound
pub mod Issued
pub mod Closed
pub mod Telemetry
mod Tests
use threatforge.Common.{
  ℕ, String, Bool, true, false, not, ◌&&◌, ◌||◌, Option, none, some, List, [], ◌∷◌, Result, ok, err,
  str_eq, opt_eq, is_none, any, find?, update, select, order_by, ◌==◌, if◌then◌else◌,
}
use threatforge.Models.{Time, Json, Dict, Connection, ConnectionStatus, insert}
use threatforge.Outbox.{
  ServiceError, not_found, channel_not_ready, identity_conflict, provider_mismatch,
}

-- What a call raises: an error of the service, or the database's `IntegrityError`.
pub data CallError : Type 0 where
  service : ServiceError → CallError
  integrity : CallError

pub record ProviderIdentity : Type 0 where
  pub provider : String
  pub account_ref : String
  pub username : String

abbrev pub connection_id : Connection → ℕ
connection_id c = c.id

-- The row stands in the partial index of the active identities, under this key.
abbrev pub is_active_identity : String → String → Connection → Bool
is_active_identity provider ref c =
    c.enabled
    && (is_none c.deleted_at && (str_eq c.provider provider && opt_eq c.provider_account_ref ref))

-- Two rows with one key in that index.
abbrev pub same_identity : Connection → Connection → Bool
same_identity c x = elim c.provider_account_ref [
  | none ↦ false
  | some ref ↦ is_active_identity c.provider ref c && is_active_identity c.provider ref x
]

abbrev put : Connection → List Connection → List Connection
put c rows = update (λ x. x.id == c.id) (λ _. c) rows

-- Writing the row back. If the index refuses it the transaction is rolled back.
unfoldable pub flush_connection :
    Connection → List Connection → Result CallError Connection × List Connection
flush_connection c rows =
    if any (λ x. not (x.id == c.id) && same_identity c x) rows
    then (err integrity, rows)
    else (ok c, put c rows)

-- `_get_connection`
unfoldable pub get_connection : ℕ → ℕ → List Connection → Option Connection
get_connection tenant id rows =
    find? (λ c. (c.id == id) && ((c.tenant_id == tenant) && is_none c.deleted_at)) rows

abbrev live_connections : ℕ → List Connection → List Connection
live_connections tenant rows = select (λ c. (c.tenant_id == tenant) && is_none c.deleted_at) rows

unfoldable pub list_connections :
    (String → String) → ℕ → Option String → List Connection → List Connection
list_connections lower tenant none rows = order_by connection_id (live_connections tenant rows)
list_connections lower tenant (some provider) rows =
    let live = live_connections tenant rows in
    order_by connection_id
      (if str_eq provider "" then live else select (λ c. str_eq c.provider (lower provider)) live)

abbrev pub on_connection :
    (Connection → List Connection → Result CallError Connection × List Connection)
    → Option Connection
    → List Connection
    → Result CallError Connection × List Connection
on_connection f none rows = (err (service not_found), rows)
on_connection f (some c) rows = f c rows

abbrev pub bound : Time → ProviderIdentity → Bool → Connection → Connection
bound now identity enable c = record c {
  provider_account_ref = some identity.account_ref;
  config_json =
      if str_eq identity.username ""
      then c.config_json
      else insert "bot_username" (Json.str identity.username) c.config_json;
  enabled = enable || c.enabled;
  status = if enable then ConnectionStatus.active else c.status;
  updated_at = now;
}

-- `clean` is `str(provider).strip().lower()`.
abbrev pub bind :
    (String → String)
    → Time
    → ProviderIdentity
    → Bool
    → Connection
    → List Connection
    → Result CallError Connection × List Connection
bind clean now identity enable c rows =
    if not (str_eq (clean identity.provider) c.provider)
    then (err (service provider_mismatch), rows)
    else if enable
        && any
            (λ x. is_active_identity identity.provider identity.account_ref x && not (x.id == c.id))
            rows
    then (err (service identity_conflict), rows)
    else flush_connection (bound now identity enable c) rows

unfoldable pub bind_bot_identity :
    (String → String)
    → Time
    → ℕ
    → ℕ
    → ProviderIdentity
    → Bool
    → List Connection
    → Result CallError Connection × List Connection
bind_bot_identity clean now tenant id identity enable rows =
    on_connection (bind clean now identity enable) (get_connection tenant id rows) rows

abbrev pub revoked : Time → Option String → Connection → Connection
revoked now actor c = record c {
  enabled = false;
  status = ConnectionStatus.revoked;
  revoked_at = some now;
  revoked_by = actor;
  updated_at = now;
}

unfoldable pub revoke_connection :
    Time → ℕ → ℕ → Option String → List Connection → Result CallError Connection × List Connection
revoke_connection now tenant id actor rows =
    on_connection (λ c. flush_connection (revoked now actor c)) (get_connection tenant id rows) rows

-- `conn.revoked_at or now`
abbrev pub or_now : Time → Option Time → Option Time
or_now now none = some now
or_now now (some t) = some t

abbrev pub deleted : Time → Option String → Connection → Connection
deleted now actor c = record c {
  enabled = false;
  status = ConnectionStatus.revoked;
  revoked_at = or_now now c.revoked_at;
  revoked_by = actor;
  deleted_at = some now;
  deleted_by = actor;
  updated_at = now;
}

unfoldable pub soft_delete_connection :
    Time → ℕ → ℕ → Option String → List Connection → Result CallError Connection × List Connection
soft_delete_connection now tenant id actor rows =
    on_connection (λ c. flush_connection (deleted now actor c)) (get_connection tenant id rows) rows

-- `not conn.provider_account_ref`
abbrev pub is_blank : Option String → Bool
is_blank none = true
is_blank (some t) = str_eq t ""

abbrev pub switched : Time → Bool → Connection → Connection
switched now enabled c = record c {
  enabled = enabled;
  status = if enabled then ConnectionStatus.active else ConnectionStatus.pending;
  updated_at = now;
}

abbrev pub switch :
    Time → Bool → Connection → List Connection → Result CallError Connection × List Connection
switch now enabled c rows =
    if enabled && is_blank c.provider_account_ref
    then (err (service channel_not_ready), rows)
    else flush_connection (switched now enabled c) rows

unfoldable pub set_connection_enabled :
    Time → ℕ → ℕ → Bool → List Connection → Result CallError Connection × List Connection
set_connection_enabled now tenant id enabled rows =
    on_connection (switch now enabled) (get_connection tenant id rows) rows

abbrev pub reported : Time → Dict Json → Connection → Connection
unfolding merged_health
reported now health c = record c {
  config_json = merged_health health c.config_json;
  updated_at = now;
}

unfoldable pub set_connection_health :
    Time → ℕ → ℕ → Dict Json → List Connection → Result CallError Connection × List Connection
set_connection_health now tenant id health rows =
    on_connection (λ c. flush_connection (reported now health c)) (get_connection tenant id rows)
      rows
