-- ===== src/Connections/Issued.antt =====
-- A handshake that is opened, and the message that carries its nonce.
use threatforge.Common.{
  ℕ, ◌+◌, ◌*◌, ◌≤◌, String, ◌≡◌, refl, Bool, true, false, text_length, ◌&&◌, Option, none, some,
  List, [], ◌∷◌, ok, arith, inl, inr, ==_iff, eq_iff, ◌==◌, find?, find?-holds, is_none,
  Option-cases, Result-cases,
}
use threatforge.Models.{Time, seconds, Connection, Source, TestRequest, TestStatus}
use threatforge.Verify.{nonce_hash, parse_verify_nonce}
use threatforge.Verify.Nonce.{AllTokens, ends_word, verify_message, parse-verify_message}
use threatforge.Ingest.{find_matching_test_request, other_source}
use threatforge.Connections.{get_connection, get_source}
use threatforge.Connections.Create.{
  TestRequestIssued, request_source_test, checked_source, looked_up,
}

pub connection-id :
    (tenant id : ℕ) (rows : List Connection) (c : Connection)
    → get_connection tenant id rows ≡ some c
    → c.id ≡ id
unfolding get_connection
connection-id tenant id rows c found = ground (
  arith,
  find?-holds (λ x. (x.id == id) && ((x.tenant_id == tenant) && is_none x.deleted_at)) rows found,
)

checked-apart :
    (tenant : ℕ) (c : Connection) (source kept : Option ℕ) (sources : List Source)
    → checked_source c source (looked_up tenant source sources) ≡ ok kept
    → other_source kept source ≡ false
unfolding get_source
checked-apart tenant c none kept sources h = ground (arith, h)
checked-apart tenant c (some id) kept sources h =
    elim (Option-cases (get_source tenant id sources)) [
      | inl lost ↦ absurd (ground (arith, h, lost))
      | inr (s, found) ↦ ground (
        arith,
        h,
        found,
        find?-holds (λ x. (x.id == id) && ((x.tenant_id == tenant) && is_none x.deleted_at)) sources
            {x = s} found,
      )
    ]

abbrev issued_row :
    (String → String)
    → Time
    → ℕ
    → String
    → ℕ
    → Connection
    → Option ℕ
    → ℕ
    → Option String
    → TestRequest
issued_row sha256 now new_id drawn tenant c kept ttl actor = record {
  id = new_id;
  tenant_id = tenant;
  connection_id = c.id;
  source_id = kept;
  provider = c.provider;
  nonce_hash = nonce_hash sha256 drawn;
  status = TestStatus.awaiting;
  requested_by = actor;
  requested_at = now;
  verified_at = none;
  expires_at = some (now + seconds (60 * ttl));
  telemetry_json = [];
  created_at = now;
}

matched :
    (sha256 : String → String) (now later : Time) (new_id : ℕ) (drawn : String)
    (tenant connection : ℕ) (source : Option ℕ) (ttl : ℕ) (actor : Option String)
    (sources : List Source) (rows rows' : List TestRequest) (issued : TestRequestIssued)
    (c : Connection) (kept : Option ℕ)
    → c.id ≡ connection
    → other_source kept source ≡ false
    → rows' ≡ issued_row sha256 now new_id drawn tenant c kept ttl actor ∷ rows
    → issued.nonce ≡ drawn
    → issued.expires_at ≡ now + seconds (60 * ttl)
    → later ≤ issued.expires_at
    → find_matching_test_request later tenant connection source
        (nonce_hash sha256 issued.nonce)
        rows'
      ≡ (some (issued_row sha256 now new_id drawn tenant c kept ttl actor), rows')
unfolding find_matching_test_request find?
matched sha256 now later new_id drawn tenant connection source ttl actor sources rows rows' issued c
      kept at apart same told until early =
    rw (same, told)
      (ground (
        arith,
        at,
        apart,
        until,
        early,
        ==_iff tenant tenant,
        ==_iff c.id connection,
        eq_iff (nonce_hash sha256 drawn) (nonce_hash sha256 drawn),
      ))

-- The request that is opened is found by the hash of its nonce.
hash_matched :
    (sha256 : String → String) (now later : Time) (new_id : ℕ) (drawn : String)
    (tenant connection : ℕ) (source : Option ℕ) (ttl : ℕ) (actor : Option String)
    (connections : List Connection) (sources : List Source) (rows rows' : List TestRequest)
    (issued : TestRequestIssued)
    → request_source_test sha256 now new_id drawn tenant connection source ttl actor connections
        sources rows
      ≡ (ok issued, rows')
    → later ≤ issued.expires_at
    → (r : TestRequest) × (find_matching_test_request later tenant connection source
          (nonce_hash sha256 issued.nonce)
          rows'
        ≡ (some r, rows'))
      × (r.id ≡ issued.request_id)
      × (issued.nonce ≡ drawn)
      × (r.nonce_hash ≡ nonce_hash sha256 drawn)
unfolding request_source_test find_matching_test_request find?
hash_matched sha256 now later new_id drawn tenant connection source ttl actor connections sources
      rows rows' issued h early =
    elim (Option-cases (get_connection tenant connection connections)) [
      | inl lost ↦ absurd (ground (arith, h, lost))
      | inr (c, found) ↦
          elim (Result-cases (checked_source c source (looked_up tenant source sources))) [
            | inr (e, bad) ↦ absurd (ground (arith, h, found, bad))
            | inl (kept, good) ↦ (
              issued_row sha256 now new_id drawn tenant c kept ttl actor,
              matched sha256 now later new_id drawn tenant connection source ttl actor sources rows
                  rows' issued c kept (connection-id tenant connection connections c found)
                  (checked-apart tenant c source kept sources good) (ground (arith, h, found, good))
                  (ground (arith, h, found, good)) (ground (arith, h, found, good)) early,
              ground (arith, h, found, good),
              ground (arith, h, found, good),
              refl,
            )
          ]
    ]

-- A handshake is opened with a nonce of 8 to 128 token characters that ends with a letter, a digit or
-- `_`. Until it expires, the verification message with the nonce that the caller is told is read as
-- that nonce, and the hash of what is read finds the new request for its tenant, connection and
-- source, while no request changes.
pub request_matched :
    (sha256 : String → String) (wide : ℕ → Bool) (now later : Time) (new_id : ℕ) (drawn : String)
    (tenant connection : ℕ) (source : Option ℕ) (ttl : ℕ) (actor : Option String)
    (connections : List Connection) (sources : List Source) (rows rows' : List TestRequest)
    (issued : TestRequestIssued)
    → AllTokens drawn
    → 8 ≤ text_length drawn
    → text_length drawn ≤ 128
    → ends_word wide false drawn ≡ true
    → request_source_test sha256 now new_id drawn tenant connection source ttl actor connections
        sources rows
      ≡ (ok issued, rows')
    → later ≤ issued.expires_at
    → (told : String) × (r : TestRequest) × (parse_verify_nonce wide
          (some (verify_message issued.nonce))
        ≡ some told)
      × (find_matching_test_request later tenant connection source (nonce_hash sha256 told) rows'
          ≡ (some r, rows'))
      × (r.id ≡ issued.request_id)
      × (r.nonce_hash ≡ nonce_hash sha256 drawn)
request_matched sha256 wide now later new_id drawn tenant connection source ttl actor connections
      sources rows rows' issued tok long short word h early =
    let (r, found, same, nonce, hash) =
      hash_matched sha256 now later new_id drawn tenant connection source ttl actor connections
        sources rows rows' issued h early in
    (
      issued.nonce,
      r,
      rw (nonce) (parse-verify_message wide drawn tok long short word),
      found,
      same,
      hash,
    )
