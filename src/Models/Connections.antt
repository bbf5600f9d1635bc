-- ===== src/Models/Connections.antt =====
-- `CollectionConnection` and `CollectionSource` of app/models.py.
use threatforge.Common.{ℕ, String, Bool, Option}
use threatforge.Models.Values.{Time, Json, Dict}
use threatforge.Models.States.{ConnectionStatus, SourceStatus}

pub record Connection : Type 0 where
  pub id : ℕ
  pub tenant_id : ℕ
  pub provider : String
  pub name : String
  pub enabled : Bool
  pub status : ConnectionStatus
  pub provider_account_ref : Option String
  pub cursor : Option String
  pub config_json : Dict Json
  pub secret_refs : Dict String
  pub secrets_metadata : Dict Json
  pub created_at : Time
  pub updated_at : Time
  pub created_by : Option String
  pub revoked_at : Option Time
  pub revoked_by : Option String
  pub deleted_at : Option Time
  pub deleted_by : Option String

pub record Source : Type 0 where
  pub id : ℕ
  pub tenant_id : ℕ
  pub connection_id : ℕ
  pub provider : String
  pub source_ref : String
  pub kind : String
  pub name : Option String
  pub enabled : Bool
  pub status : SourceStatus
  pub config_json : Dict Json
  pub created_at : Time
  pub updated_at : Time
  pub created_by : Option String
  pub deleted_at : Option Time
  pub deleted_by : Option String
