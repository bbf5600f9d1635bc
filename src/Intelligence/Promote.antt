-- ===== src/Intelligence/Promote.antt =====
-- `_promote` of app/collection/intelligence_analysis.py, with the constraints of `exposure_finding` and
-- `investigation_cases` at its flushes.
use threatforge.Common.{
  ℕ, String, Bool, true, false, not, ◌&&◌, ◌||◌, Option, none, some, List, [], ◌∷◌, ◌++◌, Result,
  ok, err, any, find?, update, max, str_eq, take_text, concat, ◌==◌, if◌then◌else◌,
}
use threatforge.Models.{Time, Json, Event}
use threatforge.Intelligence.Rows.{
  Target, AnalysisResult, FindingDetail, FindingStatus, new, duplicate, ExposureFinding,
  InvestigationCase, CaseSnapshot,
}
use threatforge.Intelligence.Targets.{dedup_key, exposure_type, title_of, text_or, event_time}
use threatforge.Intelligence.Details.{
  finding_detail, ids_of, find_case_for_exposure, link_context_events, case_number,
}

pub data PromoteError : Type 0 where
  integrity : PromoteError

pub record Board : Type 0 where
  pub findings : List ExposureFinding
  pub cases : List InvestigationCase
  pub events : List Event

-- What `_promote` returns: the finding and the case, by their ids, and whether they are new.
pub record Promoted : Type 0 where
  pub finding_id : Option ℕ
  pub case_id : Option ℕ
  pub finding_created : Bool
  pub case_created : Bool

abbrev pub finding_key : ℕ → String → ExposureFinding → Bool
finding_key tenant key f = (f.tenant_id == tenant) && str_eq f.dedup_key key

abbrev label_of : Option Target → String
label_of none = "monitored target"
label_of (some t) = take_text 180 (text_or t.label "monitored target")

abbrev asset_of : Option Target → Option ℕ
asset_of none = none
asset_of (some t) = t.asset_id

abbrev brand_of : Option Target → Option ℕ
brand_of none = none
brand_of (some t) = t.brand_id

-- The constraint `ck_exposure_severity`.
abbrev pub is_severity : String → Bool
is_severity t = str_eq t "low" || (str_eq t "medium" || (str_eq t "high" || str_eq t "critical"))

-- `_CASE_SEVERITY.get(severity, "medio")`
abbrev pub case_severity : String → String
case_severity t =
    if str_eq t "low"
    then "baixo"
    else if str_eq t "high"
    then "alto"
    else if str_eq t "critical"
    then "critico"
    else "medio"

abbrev reopened : FindingStatus → FindingStatus
reopened duplicate = new
reopened s = s

unfoldable pub new_finding : Time → ℕ → String → Event → AnalysisResult → ExposureFinding
new_finding now id key e r = record {
  id = id;
  tenant_id = e.tenant_id;
  exposure_type = exposure_type r.matched_target r;
  asset_id = asset_of r.matched_target;
  title = title_of 300 r (label_of r.matched_target);
  source = take_text 60 (concat (e.provider ∷ "_intelligence" ∷ []));
  source_reliability = "B";
  info_credibility = "2";
  severity = text_or r.severity "medium";
  status = new;
  observed_at = event_time e;
  first_seen = now;
  last_seen = now;
  dedup_key = key;
  detail = none;
  redacted = true;
  risk_score = r.score;
  parser_version = take_text 20 "telegram-conversation-v2";
}

abbrev pub seen_again : Time → AnalysisResult → ExposureFinding → ExposureFinding
seen_again now r f = record f {
  last_seen = now;
  risk_score = max f.risk_score r.score;
  status = reopened f.status;
}

-- The finding of the key, and the table with it. `arrived` are the findings that others commit
-- before the flush.
unfoldable pub upsert_finding :
    Time
    → ℕ
    → String
    → List ExposureFinding
    → Event
    → AnalysisResult
    → List ExposureFinding
    → Result PromoteError (ExposureFinding × Bool × List ExposureFinding)
upsert_finding now new_id key arrived e r findings =
    elim (find? (finding_key e.tenant_id key) findings) [
      | some f ↦ ok (
        seen_again now r f,
        false,
        arrived ++ update (λ x. x.id == f.id) (seen_again now r) findings,
      )
      | none ↦
          let f = new_finding now new_id key e r in
          if not (is_severity f.severity) || any (finding_key e.tenant_id key) arrived
          then err integrity
          else ok (f, true, f ∷ (arrived ++ findings))
    ]

abbrev pub new_case : ℕ → Event → AnalysisResult → ExposureFinding → InvestigationCase
new_case id e r f = record {
  id = id;
  tenant_id = e.tenant_id;
  brand_id = brand_of r.matched_target;
  finding_snapshot = some (record {
    exposure_finding_id = f.id;
    exposure_type = f.exposure_type;
    source = f.source;
    dedup_key = f.dedup_key;
    intelligence = r;
    event_count = none;
    latest_decision = none;
  });
  title = title_of 255 r (label_of r.matched_target);
  severity = case_severity r.severity;
  status = "open";
}

abbrev pub case_or_new :
    ℕ
    → Event
    → AnalysisResult
    → ExposureFinding
    → List InvestigationCase
    → Option InvestigationCase
    → Option InvestigationCase × Bool × List InvestigationCase
case_or_new new_id e r f cases (some c) = (some c, false, cases)
case_or_new new_id e r f cases none =
    if r.create_case
    then (some (new_case new_id e r f), true, new_case new_id e r f ∷ cases)
    else (none, false, cases)

-- The case of the finding, whether it is new, and the table with it.
unfoldable pub open_case :
    ℕ
    → Event
    → AnalysisResult
    → ExposureFinding
    → List InvestigationCase
    → Option InvestigationCase × Bool × List InvestigationCase
open_case new_id e r f cases =
    case_or_new new_id e r f cases (find_case_for_exposure e.tenant_id f.id cases)

abbrev counted_snapshot : AnalysisResult → FindingDetail → Option CaseSnapshot → Option CaseSnapshot
counted_snapshot r d none = none
counted_snapshot r d (some s) =
    some (record s { event_count = some d.event_count; latest_decision = some r.decision })

abbrev pub noted_case : AnalysisResult → FindingDetail → InvestigationCase → InvestigationCase
noted_case r d c = record c { finding_snapshot = counted_snapshot r d c.finding_snapshot }

abbrev pub note_case :
    AnalysisResult
    → FindingDetail
    → Option InvestigationCase
    → List InvestigationCase
    → List InvestigationCase
note_case r d none cases = cases
note_case r d (some c) cases = update (λ x. x.id == c.id) (noted_case r d) cases

abbrev pub promoted_event : ExposureFinding → Option InvestigationCase → Event → Event
promoted_event f c e = record e { finding_id = some f.id; case_id = case_number c }

module _ (sha256 : String → String) (date_iso : Time → String) (repr : Json → String) where
  -- The steps after the finding is there.
  abbrev pub promote_to :
      ℕ
      → Event
      → AnalysisResult
      → List Event
      → Board
      → ExposureFinding × Bool × List ExposureFinding
      → Promoted × Board
  promote_to new_case_id e r context st (f, created, findings) =
      let detail = finding_detail e r (ids_of f.detail) none f.detail in
      let opened = open_case new_case_id e r f st.cases in
      let linked = link_context_events repr r f.id opened.0 context st.events in
      let detail' =
        finding_detail e r (detail.event_ids ++ linked.0) (case_number opened.0) (some detail) in
      (
        record {
          finding_id = some f.id;
          case_id = case_number opened.0;
          finding_created = created;
          case_created = opened.1;
        },
        record {
          findings = update (λ x. x.id == f.id) (λ x. record x { detail = some detail' }) findings;
          cases = note_case r detail' opened.0 opened.2;
          events = update (λ x. x.id == e.id) (promoted_event f opened.0) linked.1;
        },
      )

  abbrev pub promote_found :
      ℕ
      → Event
      → AnalysisResult
      → List Event
      → Board
      → Result PromoteError (ExposureFinding × Bool × List ExposureFinding)
      → Result PromoteError (Promoted × Board)
  promote_found new_case_id e r context st (err x) = err x
  promote_found new_case_id e r context st (ok found) =
      ok (promote_to new_case_id e r context st found)

  abbrev pub not_promoted : Promoted
  not_promoted = record {
    finding_id = none;
    case_id = none;
    finding_created = false;
    case_created = false;
  }

  unfoldable pub promote :
      Time
      → ℕ
      → ℕ
      → List ExposureFinding
      → Event
      → AnalysisResult
      → List Event
      → Board
      → Result PromoteError (Promoted × Board)
  promote now new_id new_case_id arrived e r context st =
      if not r.create_finding
      then ok (not_promoted, st)
      else promote_found new_case_id e r context st
          (upsert_finding now new_id (dedup_key sha256 date_iso e r) arrived e r st.findings)
