-- ===== src/Outbox/Tests.antt =====
-- Runs of the outbox, and the theorems at concrete tables.
use threatforge.Common.{
  String, ◌≡◌, refl, ◌↔◌, true, false, none, some, List, [], ◌∷◌, ok, find?, any, All, get_row,
}
use threatforge.Models.{Json, Dict, Channel, OutboxRow, lookup}
use threatforge.Models.Samples.{sample_channel}
use threatforge.Outbox.{
  FindingRef, finding_id, outbox_id, channel_id, EnqueueOutcome, Request, outcome, new_row, key_of,
  enqueue_alert, admitted, by_key, assert_payload_clean, check_values, check_value, contains,
  is_channel_ready, misses, IsClean, accepted_iff, failed_row,
}
use threatforge.Outbox.Reuse.{IsOwn, reuse-IsOwn}
use threatforge.Outbox.Enqueue.{enqueue_idempotent, enqueue_isolated}

-- Texts are in lower case already, and a text stands for its own hash.
abbrev same : String → String
same t = t

abbrev request : Request
request = record {
  tenant_id = 1;
  alert_channel_id = 6;
  finding_id = 9;
  template = "brand";
  template_version = "1";
  external_channel_ref = none;
}

abbrev payload : Dict Json
payload = ("redacted_title", Json.str "Leak") ∷ []

abbrev findings : List FindingRef
findings = record { id = 9; tenant_id = 1 } ∷ []

abbrev stored : OutboxRow
stored = new_row same same 500 30 request payload

abbrev answer : EnqueueOutcome
answer = outcome true stored

first_run :
    enqueue_alert same same 500 30 request payload (sample_channel ∷ []) findings [] []
    ≡ (ok answer, stored ∷ [])
unfolding enqueue_alert admitted by_key find? assert_payload_clean check_values check_value contains
    is_channel_ready misses lookup any
first_run = refl

clean_run : assert_payload_clean same payload ≡ ok tt
unfolding assert_payload_clean check_values check_value contains any
clean_run = refl

accepted_iff_example : (assert_payload_clean same payload ≡ ok tt) ↔ All (IsClean same) payload
accepted_iff_example = accepted_iff same payload

enqueue_idempotent_example :
    enqueue_alert same same 900 31 request payload (sample_channel ∷ []) findings [] (stored ∷ [])
    ≡ (ok (record answer { created = false }), stored ∷ [])
enqueue_idempotent_example =
    enqueue_idempotent same same request payload (sample_channel ∷ []) findings 500 900 30 31 [] []
      [] (stored ∷ []) answer first_run

accepted :
    (enqueue_alert same same 500 30 request payload (sample_channel ∷ []) findings [] []).0
    ≡ ok answer
unfolding enqueue_alert admitted by_key find? assert_payload_clean check_values check_value contains
    is_channel_ready misses lookup any
accepted = refl

enqueue_isolated_example :
    All (IsClean same) payload
    × ((c : Channel) × (get_row channel_id 6 (sample_channel ∷ []) ≡ some c)
        × (c.tenant_id ≡ 1)
        × (c.deleted_at ≡ none)
        × (is_channel_ready c ≡ true))
    × ((f : FindingRef) × (get_row finding_id 9 findings ≡ some f) × (f.tenant_id ≡ 1))
enqueue_isolated_example =
    enqueue_isolated same same request payload (sample_channel ∷ []) findings 500 30 [] [] answer
      accepted

stored_found : get_row outbox_id 30 (stored ∷ []) ≡ some stored
unfolding find? new_row
stored_found = refl

abbrev failed : OutboxRow
failed = failed_row 800 "timeout" false stored

collisionless : (a b : String) → same a ≡ same b → a ≡ b
collisionless a b h = h

stored-IsOwn : All (IsOwn same) (stored ∷ [])
unfolding new_row
stored-IsOwn = ((9, refl, refl), tt)

again_run :
    enqueue_alert same same 900 31 request payload (sample_channel ∷ []) findings [] (stored ∷ [])
    ≡ (ok (record answer { created = false }), stored ∷ [])
again_run =
    enqueue_idempotent same same request payload (sample_channel ∷ []) findings 500 900 30 31 [] []
      [] (stored ∷ []) answer first_run

reuse-IsOwn_example :
    All (IsOwn same) (stored ∷ [])
    × (r : OutboxRow) × (by_key (key_of same same request) (stored ∷ []) ≡ some r)
    × (record answer { created = false } ≡ outcome false r)
    × (r.tenant_id ≡ 1)
    × (r.finding_id ≡ some 9)
    × (r.alert_channel_id ≡ 6)
reuse-IsOwn_example =
    reuse-IsOwn same same request payload (sample_channel ∷ []) findings 900 31 [] (stored ∷ [])
      (stored ∷ []) (record answer { created = false }) collisionless tt stored-IsOwn again_run
