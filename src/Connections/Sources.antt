-- ===== src/Connections/Sources.antt =====
-- The sources of app/collection/service.py.
use threatforge.Common.{
  ℕ, String, Bool, false, ◌&&◌, Option, none, some, List, Result, ok, err, is_none, find?, update,
  select, order_by, ◌==◌, if◌then◌else◌,
}
use threatforge.Models.{Time, Source, SourceStatus}
use threatforge.Outbox.{ServiceError, not_found}

abbrev pub source_id : Source → ℕ
source_id s = s.id

-- `_get_source`
unfoldable pub get_source : ℕ → ℕ → List Source → Option Source
get_source tenant id rows =
    find? (λ s. (s.id == id) && ((s.tenant_id == tenant) && is_none s.deleted_at)) rows

abbrev put_source : Source → List Source → List Source
put_source s rows = update (λ x. x.id == s.id) (λ _. s) rows

abbrev on_source :
    (Source → Source) → Option Source → List Source → Result ServiceError Source × List Source
on_source f none rows = (err not_found, rows)
on_source f (some s) rows = (ok (f s), put_source (f s) rows)

unfoldable pub set_source_enabled :
    Time → ℕ → ℕ → Bool → List Source → Result ServiceError Source × List Source
set_source_enabled now tenant id enabled rows =
    on_source
      (λ s. record s {
        enabled = enabled;
        status = if enabled then SourceStatus.active else SourceStatus.paused;
        updated_at = now;
      })
      (get_source tenant id rows) rows

unfoldable pub soft_delete_source :
    Time → ℕ → ℕ → Option String → List Source → Result ServiceError Source × List Source
soft_delete_source now tenant id actor rows =
    on_source
      (λ s. record s {
        enabled = false;
        status = SourceStatus.revoked;
        deleted_at = some now;
        deleted_by = actor;
        updated_at = now;
      })
      (get_source tenant id rows) rows

unfoldable pub list_sources : ℕ → Option ℕ → List Source → List Source
list_sources tenant none rows =
    order_by source_id (select (λ s. (s.tenant_id == tenant) && is_none s.deleted_at) rows)
list_sources tenant (some connection) rows = order_by source_id (
    select
      (λ s. ((s.tenant_id == tenant) && is_none s.deleted_at) && (s.connection_id == connection))
      rows)
