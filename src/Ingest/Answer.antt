-- ===== src/Ingest/Answer.antt =====
-- What a control message proves of the request that it answers, and what becomes of that request.
use threatforge.Common.{
  ℕ, ◌≤◌, String, ◌≡◌, ◌⊎◌, refl, true, false, Option, none, some, List, ok, inl, inr, arith,
  ==_iff, eq_iff, ◌==◌, find?, find?-holds, get_row, get_row-found, get_row_after, IsKeyed,
  if◌then◌else◌,
}
use threatforge.Models.{Time, Json, Dict, Connection, Source, TestRequest, TestStatus, merge}
use threatforge.Verify.{parse_verify_nonce, nonce_hash}
use threatforge.Ingest.{
  IngestResult, control, Db, Weather, Runtime, Provider, ingest_update, extract_text, owns, is_live,
  matches, has_expired, other_source, is_open, request_id, confirmed, confirm_test_request,
  telemetry_of,
}
use threatforge.Ingest.Confirm.{ingest_update-Confirmation}

abbrev pub IsOpen : TestStatus → Type 0
IsOpen status = (status ≡ TestStatus.pending) ⊎ (status ≡ TestStatus.awaiting)

abbrev pub IsInTime : Time → Option Time → Type 0
IsInTime now expires = (expires ≡ none) ⊎ ((t : Time) × (expires ≡ some t) × (now ≤ t))

-- The request `r` of the table is open for the nonce, and the new table differs from the old one in
-- that row only, which is verified.
abbrev pub Answer :
    Runtime → Time → Source → Dict Json → Connection → List TestRequest → List TestRequest → Type 0
Answer run now s raw c before after =
    (nonce : String) × (r : TestRequest) × (parse_verify_nonce run.wide (extract_text raw)
      ≡ some nonce)
    × (get_row request_id r.id before ≡ some r)
    × ((r.tenant_id ≡ s.tenant_id)
        × (r.connection_id ≡ c.id)
        × (r.nonce_hash ≡ nonce_hash run.sha256 nonce)
        × IsOpen r.status
        × ((r.source_id ≡ none) ⊎ (r.source_id ≡ some s.id))
        × IsInTime now r.expires_at)
    × ((j : ℕ)
        → get_row request_id j after ≡ (
            if j == r.id
            then some (record r {
              status = TestStatus.verified;
              verified_at = some now;
              telemetry_json = merge r.telemetry_json (telemetry_of (nonce_hash run.sha256 nonce));
            })
            else get_row request_id j before))

IsOpen-cases : (status : TestStatus) → is_open status ≡ true → IsOpen status
IsOpen-cases TestStatus.pending h = inl refl
IsOpen-cases TestStatus.awaiting h = inr refl
IsOpen-cases _ h = absurd (ground arith)

source_cases :
    (o : Option ℕ) (id : ℕ) → other_source o (some id) ≡ false → (o ≡ none) ⊎ (o ≡ some id)
source_cases none id h = inl refl
source_cases (some a) id h = inr (ground (arith, h, ==_iff a id))

IsInTime-cases : (now : Time) (o : Option Time) → has_expired now o ≡ false → IsInTime now o
IsInTime-cases now none h = inl refl
IsInTime-cases now (some t) h = inr (t, refl, ground (arith, h))

confirm-get_row :
    (now : Time) (telemetry : Dict Json) (r : TestRequest) (rows : List TestRequest) (j : ℕ)
    → get_row request_id r.id rows ≡ some r
    → get_row request_id j (confirm_test_request now telemetry r.id rows)
      ≡ (if j == r.id then some (confirmed now telemetry r) else get_row request_id j rows)
unfolding confirm_test_request
confirm-get_row now telemetry r rows j found =
    get_row_after request_id (λ x. x.id == r.id) (confirmed now telemetry) (λ x. refl) r.id j rows
      found (λ y. refl)

-- An update through a live connection whose outcome is control carries a nonce, and the table holds a request with the hash of
-- that nonce, of the source's tenant and of the connection, pending or awaiting, for no other source,
-- and not expired. Afterwards exactly that row is verified, at the time of the update; a lookup of
-- another id finds what it found. The primary keys of the requests are taken as unique.
pub control_confirms :
    (run : Runtime) (provider : Provider) (now : Time) (new_id : ℕ) (w : Weather) (s : Source)
    (raw : Dict Json) (db : Db) (c : Connection) (res : IngestResult)
    → IsKeyed request_id db.requests
    → find? (owns s) db.connections ≡ some c
    → is_live c s ≡ true
    → (ingest_update run provider now new_id w s raw db).0 ≡ ok res
    → res.outcome ≡ control
    → Answer run now s raw c db.requests
        (ingest_update run provider now new_id w s raw db).1.requests
control_confirms run provider now new_id w s raw db c res keyed found live is_ok is_control =
    let (nonce, r, message, hit, own, early, after) =
      ingest_update-Confirmation run provider now new_id w s raw db c res found live is_ok
        is_control in
    let hash = nonce_hash run.sha256 nonce in
    let good = find?-holds (matches s.tenant_id c.id hash) db.requests {x = r} hit in
    let at = get_row-found request_id (matches s.tenant_id c.id hash) db.requests r keyed hit in
    (
      nonce,
      r,
      message,
      at,
      (
        ground (arith, good, ==_iff r.tenant_id s.tenant_id),
        ground (arith, good, ==_iff r.connection_id c.id),
        ground (arith, good, eq_iff r.nonce_hash hash),
        IsOpen-cases r.status (ground (arith, good)),
        source_cases r.source_id s.id own,
        IsInTime-cases now r.expires_at early,
      ),
      λ j. rw (after) (confirm-get_row now (telemetry_of hash) r db.requests j at),
    )
