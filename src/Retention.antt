-- ===== src/Retention.antt =====
-- app/collection/retention.py. The audit record of a run is outside the tables that are modelled.
mod Tests
use threatforge.Common.{
  ℕ, ◌+◌, ◌<◌, update_none, get_row-update, find?, some, String, ◌≡◌, refl, Bool, true, false, not,
  ◌&&◌, Option, none, List, [], ◌∷◌, arith, ltb, is_none, count, update, All, ◌==◌, if◌then◌else◌,
}
use threatforge.Models.{Time, Event}
use threatforge.Queue.{is_ready, event_id}

pub record PurgeReport : Type 0 where
  pub purged : ℕ
  pub skipped_legal_hold : ℕ
  pub policy : String

-- The rows that the query finds.
unfoldable pub is_due : ℕ → Time → Event → Bool
is_due tenant older e = (e.tenant_id == tenant) && (ltb e.created_at older && is_none e.purged_at)

-- The policy-bound fields, and the bookkeeping.
unfoldable pub purged_event : Time → String → Event → Event
purged_event now policy e = record e {
  redacted_text = none;
  context_json = [];
  control_nonce_hash = none;
  analysis_json = [];
  purged_at = some now;
  retention_policy = some policy;
}

unfoldable pub purge_expired_events :
    Time → ℕ → String → Time → List Event → PurgeReport × List Event
purge_expired_events now tenant policy older rows = (
  record {
    purged = count (λ e. is_due tenant older e && not e.legal_hold) rows;
    skipped_legal_hold = count (λ e. is_due tenant older e && e.legal_hold) rows;
    policy = policy;
  },
  update (λ e. is_due tenant older e && not e.legal_hold) (purged_event now policy) rows,
)

abbrev pub get_event : ℕ → List Event → Option Event
get_event id rows = find? (λ e. e.id == id) rows

module _ (now : Time) (tenant : ℕ) (policy : String) (older : Time) where
  abbrev affected : Event → Bool
  affected e = is_due tenant older e && not e.legal_hold

  none_left :
      (rows : List Event) → count affected (update affected (purged_event now policy) rows) ≡ 0
  unfolding count update is_due purged_event
  none_left [] = refl
  none_left (e ∷ rows) = ground (arith, none_left rows)

  held_stays :
      (rows : List Event)
      → count
          (λ e. is_due tenant older e && e.legal_hold)
          (update affected (purged_event now policy) rows)
        ≡ count (λ e. is_due tenant older e && e.legal_hold) rows
  unfolding count update is_due purged_event
  held_stays [] = refl
  held_stays (e ∷ rows) = ground (arith, held_stays rows)

-- A second run of the same purge, at any later time, finds nothing to purge: it changes no row,
-- and reports the rows under legal hold again.
pub purge_once :
    (now later : Time) (tenant : ℕ) (policy : String) (older : Time) (rows : List Event)
    → let (report, purged) = purge_expired_events now tenant policy older rows in
      purge_expired_events later tenant policy older purged ≡ (record report { purged = 0 }, purged)
unfolding purge_expired_events
purge_once now later tenant policy older rows =
    rw
      (
        none_left now tenant policy older rows,
        held_stays now tenant policy older rows,
        update_none (affected now tenant policy older) (purged_event later policy)
            (update (affected now tenant policy older) (purged_event now policy) rows)
            (none_left now tenant policy older rows),
      )
      refl

module _ (now : Time) (tenant id : ℕ) (policy : String) (older : Time) (rows : List Event)
    (e : Event) (found : get_event id rows ≡ some e) where
  purged_row :
      get_event id (purge_expired_events now tenant policy older rows).1
      ≡ some (if affected now tenant policy older e then purged_event now policy e else e)
  unfolding purge_expired_events purged_event
  purged_row =
      rw
        (
          get_row-update event_id (affected now tenant policy older) (purged_event now policy)
              (λ x. refl) id rows,
          found,
        )
        refl

  -- A purge spares a row of another tenant, a row under legal hold, and a row that is not older
  -- than the limit.
  pub purge_spares :
      (e.tenant_id == tenant) && (ltb e.created_at older && not e.legal_hold) ≡ false
      → get_event id (purge_expired_events now tenant policy older rows).1 ≡ some e
  unfolding is_due
  purge_spares spared = rw (purged_row) (ground (arith, spared))

  -- A row of the tenant that is older than the limit, free of legal hold and not purged before keeps
  -- no content: its text, context, nonce hash and analysis are gone and no worker can acquire it; its
  -- fingerprints, external id, state and times stay.
  pub purge_clears :
      e.tenant_id ≡ tenant
      → e.created_at < older
      → e.purged_at ≡ none
      → e.legal_hold ≡ false
      → (f : Event) × (get_event id (purge_expired_events now tenant policy older rows).1 ≡ some f)
        × (f.redacted_text ≡ none)
        × (f.context_json ≡ [])
        × (f.control_nonce_hash ≡ none)
        × (f.analysis_json ≡ [])
        × ((t cutoff : Time) (m : ℕ) → is_ready t cutoff m f ≡ false)
        × (f.normalized_fingerprint ≡ e.normalized_fingerprint)
        × (f.raw_fingerprint ≡ e.raw_fingerprint)
        × (f.external_id_hash ≡ e.external_id_hash)
        × (f.processing_state ≡ e.processing_state)
        × (f.occurred_at ≡ e.occurred_at)
        × (f.created_at ≡ e.created_at)
        × (f.finding_id ≡ e.finding_id)
        × (f.case_id ≡ e.case_id)
  unfolding is_due purged_event is_ready
  purge_clears own old kept free = (
    purged_event now policy e,
    rw (purged_row) (ground (arith, own, old, kept, free)),
    refl,
    refl,
    refl,
    refl,
    (λ t cutoff m. ground arith),
    refl,
    refl,
    refl,
    refl,
    refl,
    refl,
    refl,
    refl,
  )
