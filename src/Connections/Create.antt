-- ===== src/Connections/Create.antt =====
-- `create_source` and `request_source_test` of app/collection/service.py. The nonce that was drawn
-- is an argument.
use threatforge.Common.{
  ℕ, ◌+◌, ◌*◌, String, Bool, false, not, ◌&&◌, Option, none, some, List, [], ◌∷◌, Result, ok, err,
  is_none, any, str_eq, ◌==◌, if◌then◌else◌,
}
use threatforge.Models.{Time, seconds, Connection, Source, SourceStatus, TestRequest, TestStatus}
use threatforge.Outbox.{ServiceError, not_found, tenant_mismatch, provider_mismatch}
use threatforge.Verify.{nonce_hash}
use threatforge.Connections.{CallError, service, integrity, get_connection, get_source}

-- The unique index `uq_coll_source_ref_live`.
abbrev same_ref : ℕ → ℕ → String → Source → Bool
same_ref tenant connection ref s =
    (s.tenant_id == tenant)
    && ((s.connection_id == connection) && (str_eq s.source_ref ref && is_none s.deleted_at))

abbrev add_source : Source → List Source → Result CallError Source × List Source
add_source s rows =
    if any (same_ref s.tenant_id s.connection_id s.source_ref) rows
    then (err integrity, rows)
    else (ok s, s ∷ rows)

unfoldable pub create_source :
    Time
    → ℕ
    → ℕ
    → ℕ
    → String
    → String
    → Option String
    → Option String
    → List Connection
    → List Source
    → Result CallError Source × List Source
create_source now new_id tenant connection ref kind name actor connections rows =
    elim (get_connection tenant connection connections) [
      | none ↦ (err (service not_found), rows)
      | some c ↦
          add_source
            (record {
              id = new_id;
              tenant_id = tenant;
              connection_id = c.id;
              provider = c.provider;
              source_ref = ref;
              kind = kind;
              name = name;
              enabled = false;
              status = SourceStatus.pending;
              config_json = [];
              created_at = now;
              updated_at = now;
              created_by = actor;
              deleted_at = none;
              deleted_by = none;
            })
            rows
    ]

pub record TestRequestIssued : Type 0 where
  pub request_id : ℕ
  pub nonce : String
  pub expires_at : Time

-- The source of the request, if one is named: it has to be the connection's.
abbrev pub checked_source : Connection → Option ℕ → Option Source → Result ServiceError (Option ℕ)
checked_source c none found = ok none
checked_source c (some id) none = err not_found
checked_source c (some id) (some s) =
    if not (s.connection_id == c.id)
    then err tenant_mismatch
    else if not (str_eq s.provider c.provider)
    then err provider_mismatch
    else ok (some s.id)

abbrev pub looked_up : ℕ → Option ℕ → List Source → Option Source
looked_up tenant none sources = none
looked_up tenant (some id) sources = get_source tenant id sources

-- The unique constraint `uq_coll_test_nonce`.
abbrev pub add_request :
    TestRequest
    → TestRequestIssued
    → List TestRequest
    → Result CallError TestRequestIssued × List TestRequest
add_request row issued rows =
    if any (λ r. (r.tenant_id == row.tenant_id) && str_eq r.nonce_hash row.nonce_hash) rows
    then (err integrity, rows)
    else (ok issued, row ∷ rows)

unfoldable pub request_source_test :
    (String → String)
    → Time
    → ℕ
    → String
    → ℕ
    → ℕ
    → Option ℕ
    → ℕ
    → Option String
    → List Connection
    → List Source
    → List TestRequest
    → Result CallError TestRequestIssued × List TestRequest
request_source_test sha256 now new_id nonce tenant connection source ttl_minutes actor connections
      sources rows =
    elim (get_connection tenant connection connections) [
      | none ↦ (err (service not_found), rows)
      | some c ↦ elim (checked_source c source (looked_up tenant source sources)) [
        | err e ↦ (err (service e), rows)
        | ok source_id ↦
            let expires : Time = now + seconds (60 * ttl_minutes) in
            let row : TestRequest = record {
              id = new_id;
              tenant_id = tenant;
              connection_id = c.id;
              source_id = source_id;
              provider = c.provider;
              nonce_hash = nonce_hash sha256 nonce;
              status = TestStatus.awaiting;
              requested_by = actor;
              requested_at = now;
              verified_at = none;
              expires_at = some expires;
              telemetry_json = [];
              created_at = now;
            } in
            add_request row (record { request_id = new_id; nonce = nonce; expires_at = expires })
              rows
      ]
    ]
