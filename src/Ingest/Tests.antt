-- ===== src/Ingest/Tests.antt =====
-- Runs of the ingestion, and the theorems at concrete updates.
use threatforge.Common.{
  ◌≢◌, inl, inr, IsKeyed, ◌≡◌, refl, true, false, none, some, [], ◌∷◌, ◌++◌, ok, err, find?,
}
use threatforge.Models.{ConnectionStatus, Json, Dict, Event, Connection, lookup}
use threatforge.Models.Samples.{sample_event, sample_connection, sample_source, sample_request}
use threatforge.Verify.{
  parse_verify_nonce, nonce_hash, search_from, match_here, after_prefix, group, starts_word,
  is_word, is_token,
}
use threatforge.Ingest.{
  deduplicated, request_id, not_allowed, IngestResult, normalized, control, Db, Weather, Runtime,
  Provider, NormalizedUpdate, invalid, validated, violates, find_existing, ingest_update,
  normalized_event, control_event, envelope_of, extract_cursor, extract_text, external_hash, owns,
  is_live, advance_cursor, commit_event, done, seen_before, store, resolve_active_pair,
  find_matching_test_request, get_field,
}
use threatforge.Ingest.Effect.{Effect}
use threatforge.Ingest.Atomic.{ingest_atomic, gate_refuses}
use threatforge.Ingest.Replay.{event_of, replay_deduplicated}
use threatforge.Ingest.Cursor.{cursor_follows}
use threatforge.Ingest.Answer.{Answer, control_confirms}

-- A text stands for its own hash.
abbrev runtime : Runtime
runtime = record {
  sha256 = λ t. t;
  canonical_json = λ _. "{}";
  repr = λ _. "";
  from_timestamp = λ _. none;
  from_iso = λ _. none;
  wide = λ _. false;
}

abbrev update_11 : Dict Json
update_11 = ("update_id", Json.str "11") ∷ []

abbrev nu_11 : NormalizedUpdate
nu_11 = record {
  provider = "telegram";
  external_id = "11";
  kind = "message";
  occurred_at = "";
  normalized = [];
  redacted_text = "redacted";
  raw_fingerprint = "raw";
  redaction_profile = "default";
  content_version = 1;
  is_control = false;
  control_nonce_hash = "";
}

abbrev accepts : Provider
accepts = record { validator = none; normalizer = λ _. ok nu_11 }

abbrev refuses : Provider
refuses = record { validator = none; normalizer = λ _. err (invalid "ValueError") }

abbrev db : Db
db = record {
  connections = sample_connection ∷ [];
  events = sample_event ∷ [];
  requests = record sample_request { nonce_hash = "abc_1234" } ∷ [];
}

abbrev calm : Weather
calm = record { arrived = []; broken = false }

-- Another worker stores event 8 meanwhile.
abbrev busy : Weather
busy = record {
  arrived = record sample_event { id = 8; external_id_hash = "h8" } ∷ [];
  broken = false;
}

found : find? (owns sample_source) db.connections ≡ some sample_connection
unfolding find?
found = refl

live : is_live sample_connection sample_source ≡ true
unfolding is_live
live = refl

fresh :
    find_existing sample_source
      (external_hash runtime accepts (extract_cursor runtime.repr update_11))
      db.events
    ≡ none
unfolding find_existing find? extract_cursor lookup
fresh = refl

message : parse_verify_nonce runtime.wide (extract_text update_11) ≡ none
unfolding parse_verify_nonce extract_text lookup search_from
message = refl

ingest_atomic_example :
    Effect 600 20 busy sample_source sample_connection
      (extract_cursor runtime.repr update_11)
      db
      (ingest_update runtime accepts 600 20 busy sample_source update_11 db)
ingest_atomic_example =
    ingest_atomic runtime accepts 600 20 busy sample_source update_11 db sample_connection found
      live

abbrev shut_db : Db
shut_db = record db {
  connections = record sample_connection { status = ConnectionStatus.revoked } ∷ [];
}

abbrev shut_row : Connection
shut_row = record sample_connection { status = ConnectionStatus.revoked }

shut : find? (owns sample_source) shut_db.connections ≡ some shut_row
unfolding find?
shut = refl

gate_refuses_example :
    ingest_update runtime accepts 600 20 calm sample_source update_11 shut_db
    ≡ (err not_allowed, shut_db)
gate_refuses_example =
    gate_refuses runtime accepts 600 20 calm sample_source update_11 shut_db
      (inr (shut_row, shut, inl (inr (inr refl))))

accepted : validated accepts update_11 ≡ ok nu_11
unfolding validated
accepted = refl

free :
    violates sample_source
      (event_of runtime accepts sample_source update_11 nu_11 600 20)
      (calm.arrived ++ db.events)
    ≡ false
unfolding violates find_existing find? normalized_event
free = refl

replay_deduplicated_example :
    let first = ingest_update runtime accepts 600 20 calm sample_source update_11 db in
    let second = ingest_update runtime accepts 650 21 busy sample_source update_11 first.1 in
    let cursor = extract_cursor runtime.repr update_11 in
    (first.0
      ≡ ok (
          done normalized
            (event_of runtime accepts sample_source update_11 nu_11 600 20)
            600
            cursor
            sample_connection
            (some (envelope_of runtime sample_source nu_11))))
    × (f : Event) × (second.0 ≡ ok (seen_before (advance_cursor 600 cursor sample_connection) f))
    × (second.1.connections ≡ first.1.connections)
    × (second.1.requests ≡ first.1.requests)
replay_deduplicated_example =
    replay_deduplicated runtime accepts sample_source update_11 nu_11 600 650 20 21 calm busy db
      sample_connection message accepted refl found live fresh free refl refl

refused : validated refuses update_11 ≡ err (invalid "ValueError")
unfolding validated
refused = refl

-- The nonce of the request comes back in a message.
abbrev challenge : Dict Json
challenge = ("update_id", Json.str "12") ∷ ("text", Json.str "TF-VERIFY-abc_1234") ∷ []

abbrev answer : IngestResult
answer = record { outcome = control; event_id = 22; cursor = some "12"; envelope = none }

confirmed_run : (ingest_update runtime accepts 600 22 calm sample_source challenge db).0 ≡ ok answer
unfolding ingest_update resolve_active_pair find_existing find? is_live extract_cursor extract_text
    lookup get_field parse_verify_nonce search_from match_here after_prefix group starts_word
    is_word is_token nonce_hash find_matching_test_request store violates commit_event control_event
confirmed_run = refl

requests-IsKeyed : IsKeyed request_id db.requests
unfolding find?
requests-IsKeyed = (refl, tt)

control_confirms_example :
    Answer runtime 600 sample_source challenge sample_connection db.requests
      (ingest_update runtime accepts 600 22 calm sample_source challenge db).1.requests
control_confirms_example =
    control_confirms runtime accepts 600 22 calm sample_source challenge db sample_connection answer
      requests-IsKeyed found live confirmed_run refl

challenge_id : extract_cursor runtime.repr challenge ≡ some "12"
unfolding extract_cursor lookup
challenge_id = refl

control_new : answer.outcome ≢ deduplicated
control_new = λ h. cc

cursor_follows_example :
    (d : Connection) × (find?
        (owns sample_source)
        (ingest_update runtime accepts 600 22 calm sample_source challenge db).1.connections
      ≡ some d)
    × (d.cursor ≡ some "12")
cursor_follows_example =
    cursor_follows runtime accepts 600 22 calm sample_source challenge db sample_connection "12"
      answer found live challenge_id confirmed_run control_new
