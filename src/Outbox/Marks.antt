-- ===== src/Outbox/Marks.antt =====
-- `mark_delivered` and `mark_failed`: one row of the tenant, and nothing else.
use threatforge.Common.{
  ℕ, ◌+◌, ◌≤◌, String, ◌≡◌, ◌≢◌, refl, Bool, true, false, some, List, Result, ok, err, inl, inr,
  arith, get_row, get_row_after, update, ==_iff, ◌&&◌, Bool-cases, ◌==◌, text_length,
  text_length-take_text, take_text, if◌then◌else◌,
}
use threatforge.Models.{Time, OutboxRow, OutboxStatus}
use threatforge.Queue.{next_backoff}
use threatforge.Outbox.{
  ServiceError, not_found, outbox_id, mark, mark_delivered, mark_failed, delivered_row, failed_row,
}

-- What a mark does, by whose the row is.
abbrev pub Marks :
    (OutboxRow → OutboxRow)
    → ℕ
    → ℕ
    → List OutboxRow
    → OutboxRow
    → Result ServiceError OutboxRow × List OutboxRow
    → Type 0
Marks f tenant id rows r (result, rows') =
    (result ≡ (if r.tenant_id == tenant then ok (f r) else err not_found))
    × ((j : ℕ)
        → get_row outbox_id j rows'
          ≡ (if (r.tenant_id == tenant) && (j == id) then some (f r) else get_row outbox_id j rows))

module _ (f : OutboxRow → OutboxRow) (keeps : (r : OutboxRow) → (f r).id ≡ r.id) (tenant id : ℕ)
    (rows : List OutboxRow) where
  mark_own :
      (r : OutboxRow)
      → get_row outbox_id id rows ≡ some r
      → r.tenant_id ≡ tenant
      → mark f tenant id rows ≡ (ok (f r), update (λ x. x.id == id) f rows)
  mark_own r found own = ground (arith, found, own)

  mark_foreign :
      (r : OutboxRow)
      → get_row outbox_id id rows ≡ some r
      → r.tenant_id ≢ tenant
      → mark f tenant id rows ≡ (err not_found, rows)
  mark_foreign r found foreign = ground (arith, found, foreign)

  mark-Marks :
      (r : OutboxRow)
      → get_row outbox_id id rows ≡ some r
      → Marks f tenant id rows r (mark f tenant id rows)
  mark-Marks r found = elim (Bool-cases (r.tenant_id == tenant)) [
    | inl own ↦ rw (mark_own r found ((==_iff r.tenant_id tenant).0 own)) (
      ground (arith, own),
      λ j. rw (own) (get_row_after outbox_id (λ x. x.id == id) f keeps id j rows found (λ y. refl)),
    )
    | inr foreign ↦
        rw (mark_foreign r found (ground (arith, foreign)))
          (ground (arith, foreign), λ j. rw (foreign) refl)
  ]

-- A delivery changes the one row, and only for its own tenant: the row is delivered, stamped with
-- the time, and its error is gone; another tenant gets `NotFound`, and no lookup changes.
pub mark_delivered-Marks :
    (now : Time) (tenant id : ℕ) (rows : List OutboxRow) (r : OutboxRow)
    → get_row outbox_id id rows ≡ some r
    → Marks (delivered_row now) tenant id rows r (mark_delivered now tenant id rows)
unfolding mark_delivered
mark_delivered-Marks now tenant id rows r found =
    mark-Marks (delivered_row now) (λ x. refl) tenant id rows r found

failed-id :
    (now : Time) (code : String) (dead : Bool) (r : OutboxRow)
    → (failed_row now code dead r).id ≡ r.id
failed-id now code true r = refl
failed-id now code false r = refl

code_fits :
    (now : Time) (code : String) (dead : Bool) (r : OutboxRow)
    → (c : String) × ((failed_row now code dead r).error_code ≡ some c) × (text_length c ≤ 60)
code_fits now code true r = (take_text 60 code, refl, text_length-take_text 60 code)
code_fits now code false r = (take_text 60 code, refl, text_length-take_text 60 code)

-- A failure changes the one row, and only for its own tenant: it counts one more attempt, its
-- error code has at most 60 characters, and it is a dead letter, or failed with the backed-off
-- time of that attempt; another tenant gets `NotFound`, and no lookup changes.
pub mark_failed-Marks :
    (now : Time) (tenant id : ℕ) (code : String) (dead : Bool) (rows : List OutboxRow)
    (r : OutboxRow)
    → get_row outbox_id id rows ≡ some r
    → let f = failed_row now code dead r in
      Marks (failed_row now code dead) tenant id rows r (mark_failed now tenant id code dead rows)
      × (f.attempts ≡ r.attempts + 1)
      × ((c : String) × (f.error_code ≡ some c) × (text_length c ≤ 60))
      × (f.status ≡ (if dead then OutboxStatus.dead_letter else OutboxStatus.failed))
      × (f.next_attempt_at
          ≡ (if dead then r.next_attempt_at else some (next_backoff (r.attempts + 1) 30 3600 now)))
unfolding mark_failed
mark_failed-Marks now tenant id code dead rows r found = (
  mark-Marks (failed_row now code dead) (failed-id now code dead) tenant id rows r found,
  ground arith,
  code_fits now code dead r,
  ground arith,
  ground arith,
)
