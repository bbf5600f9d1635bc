-- ===== src/Intelligence/Tests.antt =====
-- Runs of the promotion, and the theorems at concrete boards.
use threatforge.Common.{
  String, ◌≡◌, refl, true, false, none, some, List, [], ◌∷◌, Result, ok, any, find?, order_by,
}
use threatforge.Models.{Time, Json, Event}
use threatforge.Models.Samples.{sample_event}
use threatforge.Intelligence.{
  Target, CatalogueTarget, AnalysisResult, Board, Promoted, PromoteError, dedup_key, finding_key,
  new_finding, upsert_finding, open_case, find_case_for_exposure, promote, promote_to,
  bind_approved_target,
}
use threatforge.Intelligence.Approved.{Approved, bind_approved_target-Approved}
use threatforge.Intelligence.Kept.{IsUnique, promote-IsUnique}
use threatforge.Intelligence.Reuse.{Reuses, promote-Reuses}

abbrev same : String → String
same t = t

abbrev day : Time → String
day t = "2026-01-01"

abbrev no_repr : Json → String
no_repr v = ""

abbrev bank : Target
bank = record {
  ref = "brand:1";
  kind = "brand";
  label = "Bank";
  brand_id = some 1;
  asset_id = none;
  asset_type = "";
  criticality = "high";
}

abbrev result : AnalysisResult
result = record {
  decision = "claimed_access";
  score = 85;
  confidence = "high";
  severity = "high";
  threat_category = "access";
  correlation_family = "access_sale";
  matched_email_domains = [];
  contextual_match = false;
  conversation_followup = false;
  context_event_count = 0;
  matched_target = some bank;
  matched_target_terms = "bank" ∷ [];
  matched_threat_terms = [];
  matched_intent_terms = [];
  factors = [];
  create_finding = true;
  create_case = true;
}

abbrev later : Event
later = record sample_event { id = 8 }

abbrev empty_board : Board
empty_board = record { findings = []; cases = []; events = sample_event ∷ later ∷ [] }

abbrev key : String
key = dedup_key same day sample_event result

abbrev first_run : Result PromoteError (Promoted × Board)
first_run = promote same day no_repr 600 30 40 [] sample_event result [] empty_board

abbrev first_answer : Promoted
first_answer = record {
  finding_id = some 30;
  case_id = some 40;
  finding_created = true;
  case_created = true;
}

abbrev first_board : Board
first_board =
    (promote_to same day no_repr 40 sample_event result [] empty_board (
      new_finding 600 30 key sample_event result,
      true,
      new_finding 600 30 key sample_event result ∷ [],
    )).1

first_done : first_run ≡ ok (first_answer, first_board)
unfolding promote upsert_finding find? any open_case find_case_for_exposure order_by new_finding
first_done = refl

-- Nobody else commits a finding meanwhile.
free : any (finding_key 1 key) [] ≡ false
unfolding any
free = refl

days_agree : dedup_key same day later result ≡ key
unfolding dedup_key
days_agree = refl

promote-Reuses_example :
    (q : Promoted × Board) × (promote same day no_repr 700 31 41 [] later result [] first_board
      ≡ ok q)
    × Reuses same day no_repr first_answer first_board 0 q
promote-Reuses_example =
    promote-Reuses same day no_repr 600 700 30 31 40 41 [] [] sample_event later result result [] []
      empty_board first_board first_answer free refl first_done refl refl days_agree

promote-IsUnique_example : IsUnique first_board.findings
promote-IsUnique_example =
    promote-IsUnique same day no_repr 600 30 40 [] sample_event result [] empty_board first_board
      first_answer tt tt first_done

abbrev catalogue : List CatalogueTarget
catalogue = record { target = bank; terms = "bank" ∷ "bankline" ∷ [] } ∷ []

bind_approved_target-Approved_example :
    Approved catalogue bank (bind_approved_target same result catalogue)
bind_approved_target-Approved_example =
    bind_approved_target-Approved same result catalogue bank refl
