-- ===== src/Retention/Tests.antt =====
-- The theorems on the purge at a concrete table.
use threatforge.Common.{ℕ, ◌≡◌, refl, true, false, none, some, List, [], ◌∷◌, arith, find?}
use threatforge.Models.{Time, Event}
use threatforge.Models.Samples.{sample_event}
use threatforge.Queue.{is_ready}
use threatforge.Retention.{get_event, purge_expired_events, purge_clears, purge_once}

-- Event 9 is under legal hold.
abbrev held : Event
held = record sample_event { id = 9; legal_hold = true }

abbrev rows : List Event
rows = sample_event ∷ held ∷ []

sample_found : get_event 7 rows ≡ some sample_event
unfolding find?
sample_found = refl

held_found : get_event 9 rows ≡ some held
unfolding find?
held_found = refl

purge_clears_example :
    (f : Event) × (get_event 7 (purge_expired_events 300 1 "p90" 500 rows).1 ≡ some f)
    × (f.redacted_text ≡ none)
    × (f.context_json ≡ [])
    × (f.control_nonce_hash ≡ none)
    × (f.analysis_json ≡ [])
    × ((t cutoff : Time) (m : ℕ) → is_ready t cutoff m f ≡ false)
    × (f.normalized_fingerprint ≡ sample_event.normalized_fingerprint)
    × (f.raw_fingerprint ≡ sample_event.raw_fingerprint)
    × (f.external_id_hash ≡ sample_event.external_id_hash)
    × (f.processing_state ≡ sample_event.processing_state)
    × (f.occurred_at ≡ sample_event.occurred_at)
    × (f.created_at ≡ sample_event.created_at)
    × (f.finding_id ≡ sample_event.finding_id)
    × (f.case_id ≡ sample_event.case_id)
purge_clears_example =
    purge_clears 300 1 7 "p90" 500 rows sample_event sample_found refl (omega arith) refl refl

purge_once_example :
    purge_expired_events 900 1 "p90" 500 (purge_expired_events 300 1 "p90" 500 rows).1 ≡ (
      record (purge_expired_events 300 1 "p90" 500 rows).0 { purged = 0 },
      (purge_expired_events 300 1 "p90" 500 rows).1,
    )
purge_once_example = purge_once 300 900 1 "p90" 500 rows
