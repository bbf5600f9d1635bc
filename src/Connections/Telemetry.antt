-- ===== src/Connections/Telemetry.antt =====
-- What the merge of a cycle's telemetry keeps of the telemetry before.
use threatforge.Common.{
  String, ◌≡◌, refl, ap, ◌∙◌, Bool, false, not, ◌&&◌, [], ◌∷◌, arith, All, str_eq, Bool-cases, inl,
  inr,
}
use threatforge.Models.{Json, Dict, lookup, insert, lookup-insert_same, lookup-insert_other}
use threatforge.Connections.{
  connection_health, health_of, entries, fields, merge_health, merged_health, is_allowed,
  is_skipped,
}

entries-fields : (d : Dict Json) → entries (fields d) ≡ d
entries-fields [] = refl
entries-fields ((k, v) ∷ d) = ap (λ r. (k, v) ∷ r) (entries-fields d)

-- An entry of the report that writes the key `k`.
abbrev pub writes : String → String × Json → Bool
writes k (j, v) = str_eq j k && (is_allowed j && not (is_skipped j v))

merge-keeps :
    (k : String) (health current : Dict Json)
    → All (λ e. writes k e ≡ false) health
    → lookup k (merge_health health current) ≡ lookup k current
unfolding merge_health
merge-keeps k [] current silent = refl
merge-keeps k ((j, v) ∷ health) current silent =
    elim (Bool-cases (is_allowed j && not (is_skipped j v))) [
      | inl written ↦ rw (written) (
          merge-keeps k health (insert j v current) silent.1
          ∙ lookup-insert_other j k v current (ground (arith, written, silent.0)))
      | inr skipped ↦ rw (skipped) (merge-keeps k health current silent.1)
    ]

-- Telemetry that a report does not write stays: a connection's stored value of the key is the one
-- before, if each entry of the report has another key, is not an allowed key, or is the empty
-- value of one of the two timestamps that record the last success and the last event.
pub health-keeps :
    (k : String) (health config : Dict Json)
    → All (λ e. writes k e ≡ false) health
    → lookup k (connection_health (merged_health health config))
      ≡ lookup k (connection_health config)
unfolding connection_health merged_health
health-keeps k health config silent =
    rw
      (lookup-insert_same "_health"
        (Json.obj (fields (merge_health health (health_of (lookup "_health" config))))) config)
      (ap (lookup k) (entries-fields (merge_health health (health_of (lookup "_health" config))))
        ∙ merge-keeps k health (health_of (lookup "_health" config)) silent)
