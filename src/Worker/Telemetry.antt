-- ===== src/Worker/Telemetry.antt =====
-- The telemetry of a cycle, in app/collection/worker.py: `_event_metrics`, `_health_dict`,
-- `_as_non_negative_int`, and the dicts that a cycle writes at its end.
use threatforge.Common.{
  ℕ, ◌+◌, ◌-◌, max, String, Bool, true, false, ◌&&◌, Option, none, some, List, [], ◌∷◌, ◌==◌,
  str_eq, count, any, if◌then◌else◌,
}
use threatforge.Models.{Time, Json, Dict, Event, EventState, Source, lookup, insert, merge}

-- The health that a batch carries: none, a dict (a dataclass is one), or another value.
pub data BatchHealth : Type 0 where
  no_health unknown_health : BatchHealth
  health_fields : Dict Json → BatchHealth

abbrev pub health_dict : String → BatchHealth → Dict Json
health_dict iso_now no_health =
    ("state", Json.str "pending") ∷ ("checked_at", Json.str iso_now) ∷ []
health_dict iso_now (health_fields d) = d
health_dict iso_now unknown_health =
    ("state", Json.str "degraded")
    ∷ ("checked_at", Json.str iso_now)
    ∷ ("error_code", Json.str "provider_error")
    ∷ []

-- `_as_non_negative_int` of `d.get(k)`.
abbrev pub as_non_negative_int : (String → ℕ) → Option Json → ℕ
as_non_negative_int int_of_text (some (Json.num n)) = n
as_non_negative_int int_of_text (some (Json.bool true)) = 1
as_non_negative_int int_of_text (some (Json.str t)) = if str_eq t "" then 0 else int_of_text t
as_non_negative_int int_of_text _ = 0

pub record Metrics : Type 0 where
  pub persisted_events : ℕ
  pub processed_updates : ℕ
  pub rejected_updates : ℕ
  pub last_event_at : String

-- An event of one of the connection's sources.
abbrev pub is_of_connection : ℕ → ℕ → List Source → Event → Bool
is_of_connection tenant connection sources e =
    (e.tenant_id == tenant)
    && any
        (λ s. (s.tenant_id == tenant) && ((s.connection_id == connection) && (s.id == e.source_id)))
        sources

abbrev pub is_rejection : Event → Bool
is_rejection e = elim e.processing_state [ EventState.rejected ↦ true | _ ↦ false ]

abbrev later_of : Option Time → Option Time → Option Time
later_of none b = b
later_of (some a) none = some a
later_of (some a) (some b) = some (max a b)

-- `func.max` of the times that are there.
unfoldable pub last_time : (Event → Bool) → List Event → Option Time
last_time p [] = none
last_time p (e ∷ rows) =
    let rest = last_time p rows in if p e then later_of e.occurred_at rest else rest

abbrev iso_or_empty : (Time → String) → Option Time → String
iso_or_empty iso none = ""
iso_or_empty iso (some t) = iso t

unfoldable pub event_metrics : (Time → String) → ℕ → ℕ → List Source → List Event → Metrics
event_metrics iso tenant connection sources events =
    let base = is_of_connection tenant connection sources in
    let persisted = count base events in
    let rejected = count (λ e. base e && is_rejection e) events in
    record {
      persisted_events = persisted;
      processed_updates = persisted - rejected;
      rejected_updates = rejected;
      last_event_at = iso_or_empty iso (last_time base events);
    }

abbrev pub retry_json : Option ℕ → Json
retry_json none = Json.null
retry_json (some n) = Json.num n

-- What is written when the database fails within the batch.
abbrev pub interrupted_health : String → (String → ℕ) → ℕ → ℕ → ℕ → ℕ → Dict Json → Dict Json
interrupted_health iso_now int_of_text processed dedup rejected ignored current =
    ("state", Json.str "degraded")
    ∷ ("checked_at", Json.str iso_now)
    ∷ ("error_code", Json.str "ingest_infrastructure_error")
    ∷ ("last_cycle_processed", Json.num processed)
    ∷ ("last_cycle_deduplicated", Json.num dedup)
    ∷ ("last_cycle_rejected", Json.num rejected)
    ∷ ("last_cycle_ignored", Json.num ignored)
    ∷ (
      "deduplicated_updates",
      Json.num (as_non_negative_int int_of_text (lookup "deduplicated_updates" current) + dedup),
    )
    ∷ (
      "ignored_updates",
      Json.num (as_non_negative_int int_of_text (lookup "ignored_updates" current) + ignored),
    )
    ∷ []

abbrev pub with_last_event : String → Dict Json → Dict Json
with_last_event last health =
    if str_eq last "" then health else insert "last_event_at" (Json.str last) health

-- What is written when the batch has been taken.
abbrev pub finished_health :
    (String → ℕ) → ℕ → ℕ → ℕ → ℕ → Metrics → Dict Json → Dict Json → Dict Json
finished_health int_of_text processed dedup rejected ignored metrics previous health =
    merge (with_last_event metrics.last_event_at health) (
      ("persisted_events", Json.num metrics.persisted_events)
      ∷ (
        "processed_updates",
        Json.num (
            max (as_non_negative_int int_of_text (lookup "processed_updates" previous))
              metrics.processed_updates),
      )
      ∷ (
        "rejected_updates",
        Json.num (
            max (as_non_negative_int int_of_text (lookup "rejected_updates" previous))
              metrics.rejected_updates),
      )
      ∷ (
        "deduplicated_updates",
        Json.num (as_non_negative_int int_of_text (lookup "deduplicated_updates" previous) + dedup),
      )
      ∷ (
        "ignored_updates",
        Json.num (as_non_negative_int int_of_text (lookup "ignored_updates" previous) + ignored),
      )
      ∷ ("last_cycle_processed", Json.num processed)
      ∷ ("last_cycle_deduplicated", Json.num dedup)
      ∷ ("last_cycle_rejected", Json.num rejected)
      ∷ ("last_cycle_ignored", Json.num ignored)
      ∷ ("error_code", Json.str "")
      ∷ ("retry_after_seconds", Json.null)
      ∷ [])
