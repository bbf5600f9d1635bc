-- ===== src/Models/Events.antt =====
-- `CollectionEvent` and `CollectionSourceTestRequest` of app/models.py.
use threatforge.Common.{ℕ, String, Bool, Option}
use threatforge.Models.Values.{Time, Json, Dict}
use threatforge.Models.States.{EventState, TestStatus}

pub record Event : Type 0 where
  pub id : ℕ
  pub tenant_id : ℕ
  pub source_id : ℕ
  pub provider : String
  pub external_id_hash : String
  pub processing_state : EventState
  pub normalized_fingerprint : Option String
  pub raw_fingerprint : Option String
  pub content_version : ℕ
  pub redaction_profile : String
  pub redacted_text : Option String
  pub context_json : Dict Json
  pub occurred_at : Option Time
  pub is_control : Bool
  pub control_nonce_hash : Option String
  pub rejection_reason : Option String
  pub finding_id : Option ℕ
  pub case_id : Option ℕ
  pub attempts : ℕ
  pub next_attempt_at : Option Time
  pub locked_by : Option String
  pub locked_at : Option Time
  pub processed_at : Option Time
  pub error_code : Option String
  pub analysis_version : Option String
  pub analysis_json : Dict Json
  pub legal_hold : Bool
  pub retention_policy : Option String
  pub purged_at : Option Time
  pub created_at : Time

pub record TestRequest : Type 0 where
  pub id : ℕ
  pub tenant_id : ℕ
  pub connection_id : ℕ
  pub source_id : Option ℕ
  pub provider : String
  pub nonce_hash : String
  pub status : TestStatus
  pub requested_by : Option String
  pub requested_at : Time
  pub verified_at : Option Time
  pub expires_at : Option Time
  pub telemetry_json : Dict Json
  pub created_at : Time
