-- ===== src/Ingest/Handshake.antt =====
-- The TF-VERIFY handshake: `find_matching_test_request` and `confirm_test_request` of
-- app/collection/service.py.
use threatforge.Common.{
  ℕ, String, Bool, true, false, not, ◌&&◌, Option, none, some, List, ltb, ◌==◌, str_eq, find?,
  update, if◌then◌else◌,
}
use threatforge.Models.{Time, Json, Dict, TestRequest, TestStatus, merge}

abbrev pub is_open : TestStatus → Bool
is_open TestStatus.pending = true
is_open TestStatus.awaiting = true
is_open _ = false

abbrev pub request_id : TestRequest → ℕ
request_id r = r.id

-- The open request of the tenant and the connection with this nonce.
abbrev pub matches : ℕ → ℕ → String → TestRequest → Bool
matches tenant connection hash r =
    (r.tenant_id == tenant)
    && ((r.connection_id == connection) && (str_eq r.nonce_hash hash && is_open r.status))

-- The request was opened for another source.
abbrev pub other_source : Option ℕ → Option ℕ → Bool
other_source (some a) (some b) = not (a == b)
other_source _ _ = false

abbrev pub has_expired : Time → Option Time → Bool
has_expired now none = false
has_expired now (some t) = ltb t now

abbrev expire : ℕ → List TestRequest → List TestRequest
expire id rows = update (λ r. r.id == id) (λ r. record r { status = TestStatus.expired }) rows

abbrev pub checked_request :
    Time → Option ℕ → List TestRequest → Option TestRequest → Option TestRequest × List TestRequest
checked_request now source rows none = (none, rows)
checked_request now source rows (some r) =
    if other_source r.source_id source
    then (none, rows)
    else if has_expired now r.expires_at
    then (none, expire r.id rows)
    else (some r, rows)

-- A request that has expired is marked so.
unfoldable pub find_matching_test_request :
    Time → ℕ → ℕ → Option ℕ → String → List TestRequest → Option TestRequest × List TestRequest
find_matching_test_request now tenant connection source hash rows =
    checked_request now source rows (find? (matches tenant connection hash) rows)

abbrev pub confirmed : Time → Dict Json → TestRequest → TestRequest
confirmed now telemetry r = record r {
  status = TestStatus.verified;
  verified_at = some now;
  telemetry_json = merge r.telemetry_json telemetry;
}

unfoldable pub confirm_test_request : Time → Dict Json → ℕ → List TestRequest → List TestRequest
confirm_test_request now telemetry id rows = update (λ r. r.id == id) (confirmed now telemetry) rows
