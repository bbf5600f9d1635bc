-- ===== src/Ingest/Rows.antt =====
-- The values that ingestion builds: the provider's contract of app/collection/contracts.py, the
-- envelope of app/collection/envelope.py, and the rows of `CollectionEvent`.
use threatforge.Common.{
  ℕ, String, Bool, true, false, not, ◌&&◌, Option, none, some, [], ◌∷◌, Result, err, ◌==◌, str_eq,
  take_text,
}
use threatforge.Models.{
  Time, Json, Fields, Dict, Event, EventState, ConnectionStatus, Source, SourceStatus,
}
use threatforge.Ingest.Raw.{parse_occurred_at, raw_date}

-- What the interpreter and its standard library compute.
pub record Runtime : Type 0 where
  -- `hashlib.sha256(s.encode("utf-8")).hexdigest()`
  pub sha256 : String → String
  -- `json.dumps` with sorted keys and tight separators
  pub canonical_json : Json → String
  -- `str` of a list or an object
  pub repr : Json → String
  pub from_timestamp : ℕ → Option Time
  pub from_iso : String → Option Time
  -- the letters and digits beyond ASCII
  pub wide : ℕ → Bool

pub record NormalizedUpdate : Type 0 where
  pub provider : String
  pub external_id : String
  pub kind : String
  pub occurred_at : String
  pub normalized : Dict Json
  pub redacted_text : String
  pub raw_fingerprint : String
  pub redaction_profile : String
  pub content_version : ℕ
  pub is_control : Bool
  pub control_nonce_hash : String

-- What a callback of the provider raises, with the name of its class: one of `_VALIDATION_ERRORS`,
-- or another exception.
pub data ProviderError : Type 0 where
  invalid unexpected : String → ProviderError

-- The callbacks of the caller.
pub record Provider : Type 0 where
  pub validator : Option (Dict Json → Option ProviderError)
  pub normalizer : Dict Json → Result ProviderError NormalizedUpdate

abbrev after_check :
    Provider → Dict Json → Option ProviderError → Result ProviderError NormalizedUpdate
after_check p raw none = p.normalizer raw
after_check p raw (some e) = err e

abbrev check_with : Option (Dict Json → Option ProviderError) → Dict Json → Option ProviderError
check_with none raw = none
check_with (some check) raw = check raw

-- The validator, if there is one, and then the normalizer.
unfoldable pub validated : Provider → Dict Json → Result ProviderError NormalizedUpdate
validated p raw = after_check p raw (check_with p.validator raw)

pub record Envelope : Type 0 where
  pub provider : String
  pub tenant_id : ℕ
  pub source_ref : String
  pub normalized_fingerprint : String
  pub redacted_text : String
  pub content_version : ℕ
  pub redaction_profile : String
  pub occurred_at : String
  pub raw_fingerprint : String
  pub original_custody : Bool

abbrev fields_of : Dict Json → Fields
fields_of [] = Fields.end
fields_of ((k, v) ∷ d) = Fields.field k v (fields_of d)

module _ (run : Runtime) where
  unfoldable pub fingerprint_normalized : Dict Json → ℕ → String
  fingerprint_normalized normalized version = run.sha256 (
      run.canonical_json (
        Json.obj (
          Fields.field "v" (Json.num version)
            (Fields.field "n" (Json.obj (fields_of normalized)) Fields.end))))

  -- `EvidenceEnvelope.from_normalized`
  unfoldable pub envelope_of : Source → NormalizedUpdate → Envelope
  envelope_of s nu = record {
    provider = s.provider;
    tenant_id = s.tenant_id;
    source_ref = s.source_ref;
    normalized_fingerprint = fingerprint_normalized nu.normalized nu.content_version;
    redacted_text = nu.redacted_text;
    content_version = nu.content_version;
    redaction_profile = nu.redaction_profile;
    occurred_at = nu.occurred_at;
    raw_fingerprint = nu.raw_fingerprint;
    original_custody = false;
  }

-- A row of the source with the defaults of the columns.
abbrev pub blank_event : Time → ℕ → Source → String → EventState → Event
blank_event now new_id s hash state = record {
  id = new_id;
  tenant_id = s.tenant_id;
  source_id = s.id;
  provider = s.provider;
  external_id_hash = hash;
  processing_state = state;
  normalized_fingerprint = none;
  raw_fingerprint = none;
  content_version = 1;
  redaction_profile = "default";
  redacted_text = none;
  context_json = [];
  occurred_at = none;
  is_control = false;
  control_nonce_hash = none;
  rejection_reason = none;
  finding_id = none;
  case_id = none;
  attempts = 0;
  next_attempt_at = none;
  locked_by = none;
  locked_at = none;
  processed_at = none;
  error_code = none;
  analysis_version = none;
  analysis_json = [];
  legal_hold = false;
  retention_policy = none;
  purged_at = none;
  created_at = now;
}

unfoldable pub rejected_event : Time → ℕ → Source → String → String → Event
rejected_event now new_id s hash reason =
    record (blank_event now new_id s hash EventState.rejected) {
      rejection_reason = some reason;
      context_json = ("detail", Json.str "update rejected during validation/normalization") ∷ [];
    }

module _ (run : Runtime) where
  unfoldable pub control_event : Time → ℕ → Source → String → String → Dict Json → Event
  control_event now new_id s hash nonce raw =
      record (blank_event now new_id s hash EventState.control) {
        is_control = true;
        control_nonce_hash = some nonce;
        occurred_at = parse_occurred_at run.from_timestamp run.from_iso run.repr (raw_date raw);
        context_json = ("kind", Json.str "tf_verify") ∷ [];
      }

  unfoldable pub normalized_event : Time → ℕ → Source → String → NormalizedUpdate → Event
  normalized_event now new_id s hash nu =
      record (blank_event now new_id s hash EventState.normalized) {
        normalized_fingerprint = some (envelope_of run s nu).normalized_fingerprint;
        raw_fingerprint = some nu.raw_fingerprint;
        content_version = nu.content_version;
        redaction_profile = nu.redaction_profile;
        redacted_text = some nu.redacted_text;
        context_json = nu.normalized;
        occurred_at =
            parse_occurred_at run.from_timestamp run.from_iso run.repr
              (some (Json.str nu.occurred_at));
      }

unfoldable pub telemetry_of : String → Dict Json
telemetry_of hash =
    ("confirmed_via", Json.str "ingest") ∷ ("nonce_hash_prefix", Json.str (take_text 12 hash)) ∷ []

abbrev pub is_rejected : EventState → Bool
is_rejected EventState.rejected = true
is_rejected _ = false

-- An event of the source with this external id that has not been rejected.
abbrev pub same_update : ℕ → ℕ → String → Event → Bool
same_update tenant source hash e =
    (e.tenant_id == tenant)
    && ((e.source_id == source)
        && (str_eq e.external_id_hash hash && not (is_rejected e.processing_state)))

abbrev pub is_revoked : ConnectionStatus → Bool
is_revoked ConnectionStatus.revoked = true
is_revoked _ = false

abbrev pub is_source_revoked : SourceStatus → Bool
is_source_revoked SourceStatus.revoked = true
is_source_revoked _ = false
