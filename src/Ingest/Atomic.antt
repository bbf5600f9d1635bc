-- ===== src/Ingest/Atomic.antt =====
-- An update from its arrival to its commit: what `ingest_update` leaves behind, on every branch.
use threatforge.Common.{
  ℕ, String, ◌≡◌, refl, true, false, Option, none, some, List, Result, ok, err, inl, inr, arith,
  str_eq, find?, Bool-cases, Option-cases, ◌⊎◌, take_text, if◌then◌else◌,
}
use threatforge.Models.{
  Time, Json, Dict, Event, Connection, Source, TestRequest, ConnectionStatus, SourceStatus,
}
use threatforge.Verify.{parse_verify_nonce, nonce_hash}
use threatforge.Ingest.{
  not_allowed, control, rejected, Db, Weather, Runtime, Provider, ProviderError, NormalizedUpdate,
  owns, resolve_active_pair, is_live, find_existing, record_rejection, ingest_normal,
  normalize_valid, ingest_control, ingest_new, ingest_active, ingest_update, external_hash,
  extract_cursor, extract_text, validated, rejected_event, control_event, normalized_event,
  find_matching_test_request, confirm_test_request, telemetry_of, envelope_of, invalid, unexpected,
}
use threatforge.Ingest.Effect.{Effect, store-Effect, store_normalized-Effect}

module _ (run : Runtime) (provider : Provider) (now : Time) (new_id : ℕ) (w : Weather) (s : Source)
    (db : Db) where
  module _ (raw : Dict Json) (c : Connection) (cursor : Option String) where
    rejection-Effect :
        (reason : String) (requests : List TestRequest)
        → Effect now new_id w s c cursor db
            (record_rejection run provider now new_id w s c cursor reason requests db)
    unfolding record_rejection rejected_event
    rejection-Effect reason requests =
        store-Effect now new_id w s c cursor db rejected
          (rejected_event now new_id s (external_hash run provider cursor) (take_text 60 reason))
          requests (ground arith) refl refl refl

    normalize-Effect :
        (requests : List TestRequest) (r : Result ProviderError NormalizedUpdate)
        → Effect now new_id w s c cursor db
            (normalize_valid run provider now new_id w s c cursor requests db r)
    unfolding normalized_event
    normalize-Effect requests (err (unexpected name)) = (refl, inl refl, refl)
    normalize-Effect requests (err (invalid name)) = rejection-Effect name requests
    normalize-Effect requests (ok nu) =
        let hash =
          if str_eq nu.external_id ""
          then external_hash run provider cursor
          else run.sha256 nu.external_id in
        store_normalized-Effect now new_id w s c cursor db (envelope_of run s nu)
          (normalized_event run now new_id s hash nu) requests refl refl refl

    normal-Effect :
        (requests : List TestRequest)
        → Effect now new_id w s c cursor db
            (ingest_normal run provider now new_id w s raw c cursor requests db)
    unfolding ingest_normal
    normal-Effect requests = normalize-Effect requests (validated provider raw)

    control-Effect :
        (hash : String) (m : Option TestRequest × List TestRequest)
        → Effect now new_id w s c cursor db
            (ingest_control run provider now new_id w s raw c cursor hash db m)
    unfolding control_event
    control-Effect hash (none, requests) = normal-Effect requests
    control-Effect hash (some r, requests) =
        store-Effect now new_id w s c cursor db control
          (control_event run now new_id s (external_hash run provider cursor) hash raw)
          (confirm_test_request now (telemetry_of hash) r.id requests) (ground arith) refl refl refl

    new-Effect :
        (nonce : Option String)
        → Effect now new_id w s c cursor db
            (ingest_new run provider now new_id w s raw c cursor db nonce)
    new-Effect none = normal-Effect db.requests
    new-Effect (some nonce) =
        let hash = nonce_hash run.sha256 nonce in
        control-Effect hash
          (find_matching_test_request now s.tenant_id c.id (some s.id) hash db.requests)

  active-Effect :
      (raw : Dict Json) (c : Connection) (seen : Option Event)
      → Effect now new_id w s c
          (extract_cursor run.repr raw)
          db
          (ingest_active run provider now new_id w s raw c db seen)
  active-Effect raw c (some e) = ((refl, inl refl, refl), refl)
  active-Effect raw c none =
      new-Effect raw c (extract_cursor run.repr raw)
        (parse_verify_nonce run.wide (extract_text raw))

module _ (run : Runtime) (provider : Provider) (now : Time) (new_id : ℕ) (w : Weather) (s : Source)
    (raw : Dict Json) (db : Db) where
  pub resolve_live :
      (c : Connection)
      → find? (owns s) db.connections ≡ some c
      → is_live c s ≡ true
      → resolve_active_pair db s ≡ ok c
  unfolding resolve_active_pair
  resolve_live c found live = rw (found) (rw (live) refl)

  resolve_dead :
      (c : Connection)
      → find? (owns s) db.connections ≡ some c
      → is_live c s ≡ false
      → resolve_active_pair db s ≡ err not_allowed
  unfolding resolve_active_pair
  resolve_dead c found dead = rw (found) (rw (dead) refl)

  resolve_lost : find? (owns s) db.connections ≡ none → resolve_active_pair db s ≡ err not_allowed
  unfolding resolve_active_pair
  resolve_lost lost = rw (lost) refl

  -- The row that an update is collected through is there and live.
  ingest-Effect :
      (c : Connection)
      → find? (owns s) db.connections ≡ some c
      → is_live c s ≡ true
      → Effect now new_id w s c
          (extract_cursor run.repr raw)
          db
          (ingest_update run provider now new_id w s raw db)
  unfolding ingest_update
  ingest-Effect c found live = rw (resolve_live c found live) (
      active-Effect run provider now new_id w s db raw c
        (find_existing s (external_hash run provider (extract_cursor run.repr raw)) db.events))

  gate_shut :
      resolve_active_pair db s ≡ err not_allowed
      → ingest_update run provider now new_id w s raw db ≡ (err not_allowed, db)
  unfolding ingest_update
  gate_shut shut = rw (shut) refl

  pub ingest_cases :
      (ingest_update run provider now new_id w s raw db ≡ (err not_allowed, db))
      ⊎ ((c : Connection) × (find? (owns s) db.connections ≡ some c)
          × (is_live c s ≡ true)
          × Effect now new_id w s c
              (extract_cursor run.repr raw)
              db
              (ingest_update run provider now new_id w s raw db))
  ingest_cases = elim (Option-cases (find? (owns s) db.connections)) [
    | inl lost ↦ inl (gate_shut (resolve_lost lost))
    | inr (c, found) ↦ elim (Bool-cases (is_live c s)) [
      | inl live ↦ inr (c, found, live, ingest-Effect c found live)
      | inr dead ↦ inl (gate_shut (resolve_dead c found dead))
    ]
  ]

-- An update that is ingested through a live connection moves the event and the cursor together or
-- neither. With the outcome normalized, control or rejected, the new event is the only row that the
-- transaction adds, it belongs to the source and its tenant, the unique index admits it, and the
-- connection's cursor is the update's. With the outcome deduplicated, or with an error, the
-- connections and the test requests are as they were and no event is added but by others.
pub ingest_atomic :
    (run : Runtime) (provider : Provider) (now : Time) (new_id : ℕ) (w : Weather) (s : Source)
    (raw : Dict Json) (db : Db) (c : Connection)
    → find? (owns s) db.connections ≡ some c
    → is_live c s ≡ true
    → Effect now new_id w s c
        (extract_cursor run.repr raw)
        db
        (ingest_update run provider now new_id w s raw db)
ingest_atomic run provider now new_id w s raw db c found live =
    ingest-Effect run provider now new_id w s raw db c found live

abbrev pub IsGiven : Option Time → Type 0
IsGiven o = (t : Time) × (o ≡ some t)

-- A connection or a source through which nothing is collected.
abbrev pub IsShut : Connection → Source → Type 0
IsShut c s =
    (IsGiven c.deleted_at ⊎ ((c.enabled ≡ false) ⊎ (c.status ≡ ConnectionStatus.revoked)))
    ⊎ (IsGiven s.deleted_at ⊎ ((s.enabled ≡ false) ⊎ (s.status ≡ SourceStatus.revoked)))

shut_dead : (c : Connection) (s : Source) → IsShut c s → is_live c s ≡ false
unfolding is_live
shut_dead c s (inl (inl (t, gone))) = rw (gone) refl
shut_dead c s (inl (inr (inl off))) = ground (arith, off)
shut_dead c s (inl (inr (inr revoked))) = ground (arith, revoked)
shut_dead c s (inr (inl (t, gone))) = ground (arith, gone)
shut_dead c s (inr (inr (inl off))) = ground (arith, off)
shut_dead c s (inr (inr (inr revoked))) = ground (arith, revoked)

-- Where the source's connection is missing, or has a deletion time, is disabled or has the status
-- revoked, or the source itself has or is one of these, the update is refused whatever it holds,
-- and no table changes.
pub gate_refuses :
    (run : Runtime) (provider : Provider) (now : Time) (new_id : ℕ) (w : Weather) (s : Source)
    (raw : Dict Json) (db : Db)
    → (find? (owns s) db.connections ≡ none)
      ⊎ ((c : Connection) × (find? (owns s) db.connections ≡ some c) × IsShut c s)
    → ingest_update run provider now new_id w s raw db ≡ (err not_allowed, db)
gate_refuses run provider now new_id w s raw db (inl lost) =
    gate_shut run provider now new_id w s raw db
      (resolve_lost run provider now new_id w s raw db lost)
gate_refuses run provider now new_id w s raw db (inr (c, found, shut)) =
    gate_shut run provider now new_id w s raw db
      (resolve_dead run provider now new_id w s raw db c found (shut_dead c s shut))
