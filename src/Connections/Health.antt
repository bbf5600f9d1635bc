-- ===== src/Connections/Health.antt =====
-- The telemetry of a connection, `config_json._health`: `connection_health` and the merge of
-- `set_connection_health` in app/collection/service.py.
use threatforge.Common.{
  String, Bool, true, false, not, ◌||◌, ◌&&◌, Option, some, List, [], ◌∷◌, any, str_eq,
  if◌then◌else◌,
}
use threatforge.Models.{Json, Fields, Dict, lookup, insert}

abbrev allowed : List String
allowed =
    "state" ∷ "checked_at" ∷ "last_success_at" ∷ "last_event_at" ∷ "lag_seconds" ∷ "error_code"
    ∷ "retry_after_seconds" ∷ "processed_updates" ∷ "deduplicated_updates" ∷ "rejected_updates"
    ∷ "ignored_updates" ∷ "persisted_events" ∷ "last_cycle_processed" ∷ "last_cycle_deduplicated"
    ∷ "last_cycle_rejected" ∷ "last_cycle_ignored" ∷ []

abbrev pub is_allowed : String → Bool
is_allowed k = any (str_eq k) allowed

abbrev pub entries : Fields → Dict Json
entries Fields.end = []
entries (Fields.field k v d) = (k, v) ∷ entries d

abbrev pub fields : Dict Json → Fields
fields [] = Fields.end
fields ((k, v) ∷ d) = Fields.field k v (fields d)

abbrev pub health_of : Option Json → Dict Json
health_of (some (Json.obj d)) = entries d
health_of _ = ("state", Json.str "pending") ∷ []

unfoldable pub connection_health : Dict Json → Dict Json
connection_health config = health_of (lookup "_health" config)

-- `value in (None, "")`
abbrev is_empty : Json → Bool
is_empty Json.null = true
is_empty (Json.str t) = str_eq t ""
is_empty _ = false

-- An empty timestamp means that nothing happened in the cycle.
abbrev pub is_skipped : String → Json → Bool
is_skipped k v = (str_eq k "last_success_at" || str_eq k "last_event_at") && is_empty v

unfoldable pub merge_health : Dict Json → Dict Json → Dict Json
merge_health [] current = current
merge_health ((k, v) ∷ health) current =
    merge_health health
      (if is_allowed k && not (is_skipped k v) then insert k v current else current)

unfoldable pub merged_health : Dict Json → Dict Json → Dict Json
merged_health health config =
    insert "_health" (Json.obj (fields (merge_health health (connection_health config)))) config
