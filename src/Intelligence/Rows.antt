-- ===== src/Intelligence/Rows.antt =====
-- The rows that a promotion writes, less the columns that it leaves at their defaults and a case's
-- description, which is text for the reader: `ExposureFinding` and `InvestigationCase` of app/models.py, and the
-- result of an analysis, as `_safe_result` of app/collection/intelligence_analysis.py leaves it.
use threatforge.Common.{ℕ, String, Bool, Option, List}
use threatforge.Models.{Time, Json}

-- A target of the catalogue, or the one that a result names. The terms are the catalogue's.
pub record Target : Type 0 where
  pub ref : String
  pub kind : String
  pub label : String
  pub brand_id : Option ℕ
  pub asset_id : Option ℕ
  pub asset_type : String
  pub criticality : String

pub record CatalogueTarget : Type 0 where
  pub target : Target
  pub terms : List String

pub record AnalysisResult : Type 0 where
  pub decision : String
  pub score : ℕ
  pub confidence : String
  pub severity : String
  pub threat_category : String
  pub correlation_family : String
  pub matched_email_domains : List String
  pub contextual_match : Bool
  pub conversation_followup : Bool
  pub context_event_count : ℕ
  pub matched_target : Option Target
  pub matched_target_terms : List String
  pub matched_threat_terms : List String
  pub matched_intent_terms : List String
  pub factors : List Json
  pub create_finding : Bool
  pub create_case : Bool

-- The entries of `detail`; those that are copied from the result are in `result`. A dict without them
-- is `none`.
pub record FindingDetail : Type 0 where
  pub provider : String
  pub result : AnalysisResult
  pub matched_email_domains : List String
  pub decisions : List String
  pub event_ids : List ℕ
  pub event_count : ℕ
  pub case_id : Option ℕ

-- The vocabulary of the column `status`.
pub data FindingStatus : Type 0 where
  new triaging confirmed mitigated closed false_positive duplicate : FindingStatus

pub record ExposureFinding : Type 0 where
  pub id : ℕ
  pub tenant_id : ℕ
  pub exposure_type : String
  pub asset_id : Option ℕ
  pub title : String
  pub source : String
  pub source_reliability : String
  pub info_credibility : String
  pub severity : String
  pub status : FindingStatus
  pub observed_at : Time
  pub first_seen : Time
  pub last_seen : Time
  pub dedup_key : String
  pub detail : Option FindingDetail
  pub redacted : Bool
  pub risk_score : ℕ
  pub parser_version : String

-- `finding_snapshot` of a case that a promotion opens.
pub record CaseSnapshot : Type 0 where
  pub exposure_finding_id : ℕ
  pub exposure_type : String
  pub source : String
  pub dedup_key : String
  pub intelligence : AnalysisResult
  pub event_count : Option ℕ
  pub latest_decision : Option String

pub record InvestigationCase : Type 0 where
  pub id : ℕ
  pub tenant_id : ℕ
  pub brand_id : Option ℕ
  pub finding_snapshot : Option CaseSnapshot
  pub title : String
  pub severity : String
  pub status : String
