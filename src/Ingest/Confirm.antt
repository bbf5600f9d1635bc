-- ===== src/Ingest/Confirm.antt =====
-- The handshake: which update an ingestion takes for a control message, and what it confirms.
use threatforge.Common.{
  ℕ, String, ◌≡◌, refl, ap, subst, true, false, ◌||◌, Option, none, some, List, ◌++◌, Result, ok,
  err, inl, inr, arith, str_eq, find?, Bool-cases, if◌then◌else◌,
}
use threatforge.Models.{Time, Json, Dict, Event, Connection, Source, TestRequest}
use threatforge.Verify.{parse_verify_nonce, nonce_hash}
use threatforge.Ingest.{
  IngestError, IngestResult, Outcome, control, rejected, Db, Weather, Runtime, Provider,
  ProviderError, NormalizedUpdate, invalid, unexpected, violates, find_existing, ingest_update,
  ingest_active, ingest_new, ingest_control, ingest_normal, normalize_valid, record_rejection,
  store, store_normalized, or_replay, control_event, rejected_event, normalized_event, envelope_of,
  validated, extract_cursor, extract_text, external_hash, owns, is_live, commit_event, with_arrived,
  Envelope, matches, has_expired, other_source, checked_request, find_matching_test_request,
  confirm_test_request, telemetry_of,
}
use threatforge.Ingest.Effect.{
  store_lost, store_kept, normalized_lost, normalized_kept, normalized_twice,
}
use threatforge.Ingest.Atomic.{resolve_live}
use threatforge.Common.{take_text}

-- The open request that a nonce confirms: the tenant's, of the connection, for no other source, and
-- not expired.
abbrev pub Matched : Time → ℕ → ℕ → ℕ → String → List TestRequest → TestRequest → Type 0
Matched now tenant connection source hash rows r =
    (find? (matches tenant connection hash) rows ≡ some r)
    × (other_source r.source_id (some source) ≡ false)
    × (has_expired now r.expires_at ≡ false)

abbrev Match :
    Time → ℕ → ℕ → ℕ → String → List TestRequest → Option TestRequest × List TestRequest → Type 0
Match now tenant connection source hash rows (none, _) = Unit
Match now tenant connection source hash rows (some r, rows') =
    (rows' ≡ rows) × (Matched now tenant connection source hash rows r)

checked-Match :
    (now : Time) (tenant connection source : ℕ) (hash : String) (rows : List TestRequest)
    (o : Option TestRequest)
    → find? (matches tenant connection hash) rows ≡ o
    → Match now tenant connection source hash rows (checked_request now (some source) rows o)
checked-Match now tenant connection source hash rows none found = tt
checked-Match now tenant connection source hash rows (some r) found =
    elim (Bool-cases (other_source r.source_id (some source))) [
      | inl other ↦ rw (other) tt
      | inr own ↦ elim (Bool-cases (has_expired now r.expires_at)) [
        | inl late ↦ rw (own) (rw (late) tt)
        | inr early ↦ rw (own) (rw (early) (refl, (found, own, early)))
      ]
    ]

module _ (run : Runtime) (now : Time) (s : Source) (raw : Dict Json) (c : Connection)
    (db : Db) where
  abbrev pub Confirmation : Db → Type 0
  Confirmation db' =
      (nonce : String) × (r : TestRequest) × (parse_verify_nonce run.wide (extract_text raw)
        ≡ some nonce)
      × (find? (matches s.tenant_id c.id (nonce_hash run.sha256 nonce)) db.requests ≡ some r)
      × (other_source r.source_id (some s.id) ≡ false)
      × (has_expired now r.expires_at ≡ false)
      × (db'.requests
          ≡ confirm_test_request now (telemetry_of (nonce_hash run.sha256 nonce)) r.id db.requests)

  abbrev ConfirmedAs : Db → Outcome → Type 0
  ConfirmedAs db' control = Confirmation db'
  ConfirmedAs db' _ = Unit

  abbrev Confirmed : Result IngestError IngestResult × Db → Type 0
  Confirmed (err e, db') = Unit
  Confirmed (ok res, db') = ConfirmedAs db' res.outcome

  Confirmed-outcome :
      (r : Result IngestError IngestResult × Db) (res : IngestResult)
      → Confirmed r
      → r.0 ≡ ok res
      → res.outcome ≡ control
      → Confirmation r.1
  Confirmed-outcome (err e, db') res h is_ok is_control = absurd (ground arith)
  Confirmed-outcome (ok first, db') res h is_ok is_control =
      subst (ConfirmedAs db') {x = first.outcome} {y = control} (cc) h

  module _ (w : Weather) (cursor : Option String) where
    store-Confirmed :
        (outcome : Outcome) (ev : Event) (requests : List TestRequest)
        → ConfirmedAs (commit_event now w c cursor ev requests db) outcome
        → Confirmed (store outcome now w s c cursor ev requests db)
    store-Confirmed outcome ev requests h =
        elim (Bool-cases (w.broken || violates s ev (w.arrived ++ db.events))) [
          | inl lost ↦ rw (store_lost now ev.id w s c cursor db outcome ev requests lost) tt
          | inr kept ↦ rw (store_kept now ev.id w s c cursor db outcome ev requests kept) h
        ]

    replay-Confirmed : (o : Option Event) (db' : Db) → Confirmed (or_replay c o, db')
    replay-Confirmed none db' = tt
    replay-Confirmed (some e) db' = tt

    normalized-Confirmed :
        (envelope : Envelope) (ev : Event) (requests : List TestRequest)
        → Confirmed (store_normalized now w s c cursor envelope ev requests db)
    normalized-Confirmed envelope ev requests = elim (Bool-cases w.broken) [
      | inl lost ↦ rw (normalized_lost now ev.id w s c cursor db envelope ev requests lost) tt
      | inr up ↦ elim (Bool-cases (violates s ev (w.arrived ++ db.events))) [
        | inl twice ↦
            rw (normalized_twice now ev.id w s c cursor db envelope ev requests up twice) (
              replay-Confirmed (find_existing s ev.external_id_hash (w.arrived ++ db.events))
                (with_arrived w db))
        | inr free ↦ rw (normalized_kept now ev.id w s c cursor db envelope ev requests up free) tt
      ]
    ]

    module _ (provider : Provider) (new_id : ℕ) where
      valid-Confirmed :
          (requests : List TestRequest) (r : Result ProviderError NormalizedUpdate)
          → Confirmed (normalize_valid run provider now new_id w s c cursor requests db r)
      unfolding record_rejection
      valid-Confirmed requests (err (unexpected name)) = tt
      valid-Confirmed requests (err (invalid name)) =
          store-Confirmed rejected
            (rejected_event now new_id s (external_hash run provider cursor) (take_text 60 name))
            requests tt
      valid-Confirmed requests (ok nu) =
          let hash =
            if str_eq nu.external_id ""
            then external_hash run provider cursor
            else run.sha256 nu.external_id in
          normalized-Confirmed (envelope_of run s nu) (normalized_event run now new_id s hash nu)
            requests

      normal-Confirmed :
          (requests : List TestRequest)
          → Confirmed (ingest_normal run provider now new_id w s raw c cursor requests db)
      unfolding ingest_normal
      normal-Confirmed requests = valid-Confirmed requests (validated provider raw)

      control-Confirmed :
          (nonce : String) (m : Option TestRequest × List TestRequest)
          → parse_verify_nonce run.wide (extract_text raw) ≡ some nonce
          → Match now s.tenant_id c.id s.id (nonce_hash run.sha256 nonce) db.requests m
          → Confirmed (
              ingest_control run provider now new_id w s raw c cursor
                (nonce_hash run.sha256 nonce)
                db
                m)
      unfolding commit_event
      control-Confirmed nonce (none, requests) message h = normal-Confirmed requests
      control-Confirmed nonce (some r, requests) message (same, (found, own, early)) =
          let hash = nonce_hash run.sha256 nonce in
          store-Confirmed control
            (control_event run now new_id s (external_hash run provider cursor) hash raw)
            (confirm_test_request now (telemetry_of hash) r.id requests)
            (
              nonce,
              r,
              message,
              found,
              own,
              early,
              ap (confirm_test_request now (telemetry_of hash) r.id) same,
            )

      new-Confirmed :
          (nonce : Option String)
          → parse_verify_nonce run.wide (extract_text raw) ≡ nonce
          → Confirmed (ingest_new run provider now new_id w s raw c cursor db nonce)
      unfolding find_matching_test_request
      new-Confirmed none message = normal-Confirmed db.requests
      new-Confirmed (some nonce) message =
          let hash = nonce_hash run.sha256 nonce in
          control-Confirmed nonce
            (find_matching_test_request now s.tenant_id c.id (some s.id) hash db.requests) message
            (checked-Match now s.tenant_id c.id s.id hash db.requests
              (find? (matches s.tenant_id c.id hash) db.requests) refl)

  active-Confirmed :
      (w : Weather) (provider : Provider) (new_id : ℕ) (seen : Option Event)
      → Confirmed (ingest_active run provider now new_id w s raw c db seen)
  active-Confirmed w provider new_id (some e) = tt
  active-Confirmed w provider new_id none =
      new-Confirmed w (extract_cursor run.repr raw) provider new_id
        (parse_verify_nonce run.wide (extract_text raw)) refl

-- A control message answers an open request, which is confirmed with it.
pub ingest_update-Confirmation :
    (run : Runtime) (provider : Provider) (now : Time) (new_id : ℕ) (w : Weather) (s : Source)
    (raw : Dict Json) (db : Db) (c : Connection) (res : IngestResult)
    → find? (owns s) db.connections ≡ some c
    → is_live c s ≡ true
    → (ingest_update run provider now new_id w s raw db).0 ≡ ok res
    → res.outcome ≡ control
    → Confirmation run now s raw c db (ingest_update run provider now new_id w s raw db).1
unfolding ingest_update
ingest_update-Confirmation run provider now new_id w s raw db c res found live is_ok is_control =
    Confirmed-outcome run now s raw c db (ingest_update run provider now new_id w s raw db) res
      (rw (resolve_live run provider now new_id w s raw db c found live) (
        active-Confirmed run now s raw c db w provider new_id
          (find_existing s (external_hash run provider (extract_cursor run.repr raw)) db.events)))
      is_ok is_control
