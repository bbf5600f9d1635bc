-- ===== src/Models/Alerts.antt =====
-- `TenantAlertChannel` and `AlertOutbox` of app/models.py.
use threatforge.Common.{ℕ, String, Bool, Option}
use threatforge.Models.Values.{Time, Json, Dict}
use threatforge.Models.States.{OutboxStatus}

pub record Channel : Type 0 where
  pub id : ℕ
  pub tenant_id : ℕ
  pub name : String
  pub channel_type : String
  pub enabled : Bool
  pub config_json : Dict Json
  pub secret_refs : Dict String
  pub secrets_metadata : Dict Json
  pub created_at : Time
  pub updated_at : Time
  pub created_by : Option String
  pub deleted_at : Option Time
  pub deleted_by : Option String

pub record OutboxRow : Type 0 where
  pub id : ℕ
  pub tenant_id : ℕ
  pub alert_channel_id : ℕ
  pub finding_id : Option ℕ
  pub external_channel_ref : Option String
  pub template : String
  pub template_version : String
  pub dedup_key : String
  pub status : OutboxStatus
  pub attempts : ℕ
  pub next_attempt_at : Option Time
  pub delivered_at : Option Time
  pub error_code : Option String
  pub payload_json : Dict Json
  pub created_at : Time
  pub updated_at : Time
