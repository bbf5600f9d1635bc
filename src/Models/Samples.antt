-- ===== src/Models/Samples.antt =====
-- Rows that the tests share.
use threatforge.Common.{true, false, none, some, [], ◌∷◌}
use threatforge.Models.Values.{Json}
use threatforge.Models.States.{EventState, ConnectionStatus, SourceStatus, TestStatus}
use threatforge.Models.Events.{Event, TestRequest}
use threatforge.Models.Connections.{Connection, Source}
use threatforge.Models.Alerts.{Channel}

-- A normalized event of tenant 1, as ingestion leaves it.
abbrev pub sample_event : Event
sample_event = record {
  id = 7;
  tenant_id = 1;
  source_id = 4;
  provider = "telegram";
  external_id_hash = "h7";
  processing_state = EventState.normalized;
  normalized_fingerprint = some "fp";
  raw_fingerprint = some "raw";
  content_version = 1;
  redaction_profile = "default";
  redacted_text = some "redacted";
  context_json = ("chat_type", Json.str "channel") ∷ [];
  occurred_at = some 50;
  is_control = false;
  control_nonce_hash = none;
  rejection_reason = none;
  finding_id = none;
  case_id = none;
  attempts = 0;
  next_attempt_at = none;
  locked_by = none;
  locked_at = none;
  processed_at = none;
  error_code = none;
  analysis_version = none;
  analysis_json = [];
  legal_hold = false;
  retention_policy = none;
  purged_at = none;
  created_at = 100;
}

abbrev pub sample_connection : Connection
sample_connection = record {
  id = 2;
  tenant_id = 1;
  provider = "telegram";
  name = "bot";
  enabled = true;
  status = ConnectionStatus.active;
  provider_account_ref = some "bot:1";
  cursor = some "10";
  config_json = [];
  secret_refs = ("bot_token", "secretref://env/T") ∷ [];
  secrets_metadata = [];
  created_at = 10;
  updated_at = 10;
  created_by = none;
  revoked_at = none;
  revoked_by = none;
  deleted_at = none;
  deleted_by = none;
}

abbrev pub sample_source : Source
sample_source = record {
  id = 4;
  tenant_id = 1;
  connection_id = 2;
  provider = "telegram";
  source_ref = "chan";
  kind = "channel";
  name = none;
  enabled = true;
  status = SourceStatus.active;
  config_json = [];
  created_at = 20;
  updated_at = 20;
  created_by = none;
  deleted_at = none;
  deleted_by = none;
}

abbrev pub sample_request : TestRequest
sample_request = record {
  id = 3;
  tenant_id = 1;
  connection_id = 2;
  source_id = some 4;
  provider = "telegram";
  nonce_hash = "n";
  status = TestStatus.awaiting;
  requested_by = none;
  requested_at = 30;
  verified_at = none;
  expires_at = some 9000;
  telemetry_json = [];
  created_at = 30;
}

abbrev pub sample_channel : Channel
sample_channel = record {
  id = 6;
  tenant_id = 1;
  name = "ops";
  channel_type = "telegram";
  enabled = true;
  config_json = ("chat_id", Json.str "42") ∷ [];
  secret_refs = ("bot_token", "secretref://env/T") ∷ [];
  secrets_metadata = [];
  created_at = 40;
  updated_at = 40;
  created_by = none;
  deleted_at = none;
  deleted_by = none;
}
