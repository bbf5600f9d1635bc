-- ===== src/Intelligence/Targets.antt =====
-- `_bind_approved_target`, `_dedup_key` and `_exposure_type` of
-- app/collection/intelligence_analysis.py. `casefold` is the string method, and `date_iso` the date in
-- UTC of a time, as a text.
use threatforge.Common.{
  ℕ, zero, suc, String, Bool, false, ◌||◌, Option, none, some, List, [], ◌∷◌, str_eq, take_text,
  decimal, concat, if◌then◌else◌,
}
use threatforge.Models.{Time, Dict, Event, lookup, insert}
use threatforge.Outbox.{join_bar}
use threatforge.Intelligence.Rows.{Target, CatalogueTarget, AnalysisResult}

-- The first target of the catalogue with the reference.
unfoldable pub find_approved : String → List CatalogueTarget → Option CatalogueTarget
find_approved ref [] = none
find_approved ref (t ∷ targets) =
    if str_eq t.target.ref ref then some t else find_approved ref targets

abbrev pub copied_target : Target → Target
copied_target t = record {
  ref = take_text 100 t.ref;
  kind = take_text 30 t.kind;
  label = take_text 200 t.label;
  brand_id = t.brand_id;
  asset_id = t.asset_id;
  asset_type = take_text 30 t.asset_type;
  criticality = take_text 20 t.criticality;
}

-- The first elements of a list.
abbrev pub first_of {ℓ} : {A : Type ℓ} → ℕ → List A → List A
first_of zero xs = []
first_of (suc n) [] = []
first_of (suc n) (x ∷ xs) = x ∷ first_of n xs

module _ (casefold : String → String) where
  -- The approved terms by their folded form: of two with one form the later is kept.
  unfoldable pub approved_terms : List String → Dict String → Dict String
  approved_terms [] d = d
  approved_terms (t ∷ terms) d = approved_terms terms (insert (casefold t) (take_text 120 t) d)

  abbrev cons_some : Option String → List String → List String
  cons_some none rest = rest
  cons_some (some t) rest = t ∷ rest

  unfoldable pub bound_terms : Dict String → List String → List String
  bound_terms approved [] = []
  bound_terms approved (t ∷ terms) =
      cons_some (lookup (casefold t) approved) (bound_terms approved terms)

  abbrev pub bind_found : AnalysisResult → Option CatalogueTarget → AnalysisResult
  bind_found r none = record r {
    matched_target = none;
    matched_target_terms = [];
    create_finding = false;
    create_case = false;
  }
  bind_found r (some t) = record r {
    matched_target = some (copied_target t.target);
    matched_target_terms =
        first_of 20 (bound_terms (approved_terms t.terms []) r.matched_target_terms);
  }

  abbrev pub bind_target : AnalysisResult → List CatalogueTarget → Option Target → AnalysisResult
  bind_target r targets none = r
  bind_target r targets (some t) = bind_found r (find_approved t.ref targets)

  unfoldable pub bind_approved_target : AnalysisResult → List CatalogueTarget → AnalysisResult
  bind_approved_target r targets = bind_target r targets r.matched_target

-- `a or b` of texts
abbrev pub text_or : String → String → String
text_or a b = if str_eq a "" then b else a

abbrev pub ref_of : Option Target → String
ref_of none = ""
ref_of (some t) = t.ref

abbrev pub event_time : Event → Time
event_time e = elim e.occurred_at [ none ↦ e.created_at | some t ↦ t ]

unfoldable pub dedup_key : (String → String) → (Time → String) → Event → AnalysisResult → String
dedup_key sha256 date_iso e r = sha256 (
    join_bar (
      "intelligence-v1"
      ∷ decimal e.tenant_id
      ∷ text_or (ref_of r.matched_target) "unmatched"
      ∷ text_or (text_or r.correlation_family r.threat_category) "none"
      ∷ date_iso (event_time e)
      ∷ []))

abbrev pub is_credential : AnalysisResult → Bool
is_credential r = str_eq r.correlation_family "credential_exposure"

abbrev asset_exposure : Target → String
asset_exposure t =
    if str_eq t.kind "brand" || str_eq t.kind "tenant"
    then "brand_exposure"
    else if str_eq t.asset_type "identity" || str_eq t.asset_type "email"
    then "identity_exposure"
    else if str_eq t.asset_type "domain" || str_eq t.asset_type "ip_range"
    then "infrastructure_exposure"
    else if str_eq t.asset_type "repo"
    then "source_code_exposure"
    else if str_eq t.asset_type "secret_pattern"
    then "secret_exposure"
    else "brand_exposure"

abbrev target_exposure : Option Target → String
target_exposure none = "brand_exposure"
target_exposure (some t) = asset_exposure t

unfoldable pub exposure_type : Option Target → AnalysisResult → String
exposure_type target r = if is_credential r then "credential_exposure" else target_exposure target

-- `_finding_title` and `_case_title`, which differ in the width of their columns.
abbrev pub title_of : ℕ → AnalysisResult → String → String
title_of width r label = take_text width (
    concat (
      (if is_credential r
        then "Potential credential exposure involving "
        else "Potential targeted threat against ")
      ∷ label
      ∷ []))
