-- ===== src/Intelligence/Details.antt =====
-- `_finding_detail`, `_find_case_for_exposure` and `_link_context_events` of
-- app/collection/intelligence_analysis.py.
use threatforge.Common.{
  ℕ, suc, ◌-◌, String, Bool, true, false, not, ◌&&◌, ◌||◌, Option, none, some, List, [], ◌∷◌, ◌++◌,
  length, any, select, find?, order_by, update, str_eq, ◌==◌, if◌then◌else◌,
}
use threatforge.Models.{Json, Items, Fields, Dict, Event, lookup, insert, merge, text_of}
use threatforge.Connections.{entries, fields}
use threatforge.Intelligence.Rows.{AnalysisResult, FindingDetail, InvestigationCase}
use threatforge.Intelligence.Targets.{first_of, is_credential, ref_of}

-- `xs[-n:]`
unfoldable pub drop_first {ℓ} : {A : Type ℓ} → ℕ → List A → List A
drop_first ℕ.zero xs = xs
drop_first (suc n) [] = []
drop_first (suc n) (x ∷ xs) = drop_first n xs

abbrev pub last_of {ℓ} : {A : Type ℓ} → ℕ → List A → List A
last_of n xs = drop_first (length xs - n) xs

-- `list(dict.fromkeys(xs))`: each element where it stands first.
module _ {ℓ} {A : Type ℓ} (same : A → A → Bool) where
  unfoldable pub distinct_after : List A → List A → List A
  distinct_after seen [] = []
  distinct_after seen (x ∷ xs) =
      let new = x ∷ distinct_after (x ∷ seen) xs in
      let old = distinct_after seen xs in if any (same x) seen then old else new

  abbrev pub distinct : List A → List A
  distinct xs = distinct_after [] xs

abbrev same_id : ℕ → ℕ → Bool
same_id a b = a == b

abbrev pub ids_of : Option FindingDetail → List ℕ
ids_of none = []
ids_of (some d) = d.event_ids

abbrev domains_of : Option FindingDetail → List String
domains_of none = []
domains_of (some d) = d.matched_email_domains

abbrev decisions_of : Option FindingDetail → List String
decisions_of none = []
decisions_of (some d) = d.decisions

unfoldable pub finding_detail :
    Event → AnalysisResult → List ℕ → Option ℕ → Option FindingDetail → FindingDetail
finding_detail e r event_ids case_id previous =
    let ids = last_of 50 (distinct same_id (event_ids ++ (e.id ∷ []))) in
    record {
      provider = e.provider;
      result = r;
      matched_email_domains =
          first_of 20 (distinct str_eq (domains_of previous ++ r.matched_email_domains));
      decisions =
          select (λ d. not (str_eq d ""))
            (last_of 20 (distinct str_eq (decisions_of previous ++ (r.decision ∷ []))));
      event_ids = ids;
      event_count = length ids;
      case_id = case_id;
    }

abbrev pub case_id_of : InvestigationCase → ℕ
case_id_of c = c.id

-- `int(snapshot.get("exposure_finding_id") or 0) == finding_id`
abbrev pub is_case_of : ℕ → ℕ → InvestigationCase → Bool
is_case_of tenant finding c =
    (c.tenant_id == tenant)
    && elim c.finding_snapshot [ none ↦ 0 == finding | some s ↦ s.exposure_finding_id == finding ]

unfoldable pub find_case_for_exposure : ℕ → ℕ → List InvestigationCase → Option InvestigationCase
find_case_for_exposure tenant finding cases =
    find? (is_case_of tenant finding) (order_by case_id_of cases)

-- `str(value or "")` of a value of `analysis_json`
abbrev pub text_or_blank : (Json → String) → Option Json → String
text_or_blank repr none = ""
text_or_blank repr (some Json.null) = ""
text_or_blank repr (some (Json.bool false)) = ""
text_or_blank repr (some (Json.num ℕ.zero)) = ""
text_or_blank repr (some (Json.arr Items.nil)) = ""
text_or_blank repr (some (Json.obj Fields.end)) = ""
text_or_blank repr (some v) = text_of repr v

abbrev pub fields_of : Option Json → Dict Json
fields_of (some (Json.obj d)) = entries d
fields_of _ = []

abbrev pub linkable_decisions : List String
linkable_decisions =
    "monitored_target_mention" ∷ "claimed_access" ∷ "credential_market_activity" ∷ []

-- `value not in (None, id)`
abbrev pub is_other : Option ℕ → ℕ → Bool
is_other none id = false
is_other (some n) id = not (n == id)

abbrev other_case : Option InvestigationCase → Option ℕ → Bool
other_case none id = false
other_case (some c) id = is_other id c.id

abbrev id_json : Option ℕ → Json
id_json none = Json.null
id_json (some n) = Json.num n

abbrev pub case_number : Option InvestigationCase → Option ℕ
case_number none = none
case_number (some c) = some c.id

module _ (repr : Json → String) (r : AnalysisResult) (finding : ℕ)
    (case : Option InvestigationCase) where
  unfoldable pub is_linkable : Event → Bool
  is_linkable row =
      any (str_eq (text_or_blank repr (lookup "decision" row.analysis_json))) linkable_decisions
      && (str_eq
            (text_or_blank repr
              (lookup "ref" (fields_of (lookup "matched_target" row.analysis_json))))
            (ref_of r.matched_target)
          && (not (is_other row.finding_id finding) && not (other_case case row.case_id)))

  abbrev pub linked : Event → Event
  linked row = record row {
    finding_id = some finding;
    case_id = case_number case;
    analysis_json =
        insert "promotion"
          (Json.obj (
            fields (
              merge (fields_of (lookup "promotion" row.analysis_json)) (
                ("finding_id", Json.num finding)
                ∷ ("case_id", id_json (case_number case))
                ∷ ("finding_created", Json.bool false)
                ∷ ("case_created", Json.bool false)
                ∷ ("linked_from_context", Json.bool true)
                ∷ []))))
          row.analysis_json;
  }

  -- The loop over the context, which holds rows of the table.
  unfoldable pub link_each : List Event → List Event → List ℕ × List Event
  link_each [] rows = ([], rows)
  link_each (row ∷ context) rows =
      let new = link_each context (update (λ x. x.id == row.id) (λ _. linked row) rows) in
      let old = link_each context rows in if is_linkable row then (row.id ∷ new.0, new.1) else old

  unfoldable pub link_context_events : List Event → List Event → List ℕ × List Event
  unfolding link_each
  link_context_events context rows =
      if not (is_credential r) || str_eq (ref_of r.matched_target) ""
      then ([], rows)
      else link_each context rows
