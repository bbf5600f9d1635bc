-- ===== src/Outbox/Enqueue.antt =====
-- `enqueue_alert`: idempotency by the unique key, and the tenant boundary.
use threatforge.Common.{
  ℕ, String, ◌≡◌, refl, true, false, Option, none, some, List, [], ◌∷◌, ◌++◌, Result, ok, err, inl,
  inr, arith, find?, get_row, All, eq_iff, subst, Result-cases,
}
use threatforge.Models.{Time, Json, Dict, Channel, OutboxRow}
use threatforge.Outbox.{
  FindingRef, finding_id, EnqueueError, EnqueueOutcome, Request, by_key, outcome, admitted, key_of,
  new_row, enqueue_alert, enqueue_admitted, insert_or_reuse, IsClean, accepted_iff,
  is_channel_ready, channel_id,
}

pub key-by_key :
    (key : String) (rows : List OutboxRow) (r : OutboxRow)
    → by_key key rows ≡ some r
    → r.dedup_key ≡ key
unfolding by_key find?
key-by_key key [] r h = absurd (ground arith)
key-by_key key (x ∷ rows) r h = ground (arith, eq_iff x.dedup_key key, key-by_key key rows r)

module _ (lower sha256 : String → String) (q : Request) (payload : Dict Json)
    (channels : List Channel) (findings : List FindingRef) where
  -- The outcome names the row that the new table has under the request's key.
  abbrev Stored : Result EnqueueError EnqueueOutcome × List OutboxRow → Type 0
  Stored (ok out, rows) =
      (r : OutboxRow) × (by_key (key_of lower sha256 q) rows ≡ some r)
      × (out ≡ outcome out.created r)
  Stored (err e, rows) = Unit

  insert-Stored :
      (now : Time) (new_id : ℕ) (rows : List OutboxRow) (o : Option OutboxRow)
      → by_key (key_of lower sha256 q) rows ≡ o
      → Stored (insert_or_reuse lower sha256 now new_id q payload rows o)
  unfolding new_row by_key find?
  insert-Stored now new_id rows (some r) h = (r, h, refl)
  insert-Stored now new_id rows none h = (
    new_row lower sha256 now new_id q payload,
    ground (arith, eq_iff (key_of lower sha256 q) (key_of lower sha256 q)),
    refl,
  )

  enqueue-Stored :
      (now : Time) (new_id : ℕ) (arrived rows : List OutboxRow) (o : Option OutboxRow)
      → by_key (key_of lower sha256 q) rows ≡ o
      → Stored (enqueue_admitted lower sha256 now new_id q payload arrived rows o)
  enqueue-Stored now new_id arrived rows (some r) h = (r, h, refl)
  enqueue-Stored now new_id arrived rows none h =
      insert-Stored now new_id (arrived ++ rows) (by_key (key_of lower sha256 q) (arrived ++ rows))
        refl

  pub enqueue_ok :
      (now : Time) (new_id : ℕ) (arrived rows : List OutboxRow) {out : EnqueueOutcome}
      {rows' : List OutboxRow}
      → enqueue_alert lower sha256 now new_id q payload channels findings arrived rows
        ≡ (ok out, rows')
      → (admitted lower q payload channels findings ≡ ok tt)
        × (r : OutboxRow) × (by_key (key_of lower sha256 q) rows' ≡ some r)
        × (out ≡ outcome out.created r)
  unfolding enqueue_alert
  enqueue_ok now new_id arrived rows {out} {rows'} h =
      elim (Result-cases (admitted lower q payload channels findings)) [
        | inl (u, e) ↦
            let at_end : enqueue_admitted lower sha256 now new_id q payload arrived rows
                  (by_key (key_of lower sha256 q) rows)
                ≡ (ok out, rows') =
              rw (e, enqueue_alert) at h in
            let (r, found, same) =
              subst Stored at_end (
                enqueue-Stored now new_id arrived rows (by_key (key_of lower sha256 q) rows)
                  refl) in
            (e, r, found, same)
        | inr (x, e) ↦ absurd (ground (arith, e))
      ]

-- Enqueueing is idempotent: after a request has been accepted, the same request, at any later
-- time and against whatever arrives meanwhile, creates nothing, leaves the table as it is, and
-- answers with the same row, key and status.
pub enqueue_idempotent :
    (lower sha256 : String → String) (q : Request) (payload : Dict Json) (channels : List Channel)
    (findings : List FindingRef) (now later : Time) (new_id other_id : ℕ)
    (arrived others rows rows' : List OutboxRow) (out : EnqueueOutcome)
    → enqueue_alert lower sha256 now new_id q payload channels findings arrived rows
      ≡ (ok out, rows')
    → enqueue_alert lower sha256 later other_id q payload channels findings others rows'
      ≡ (ok (record out { created = false }), rows')
unfolding enqueue_alert
enqueue_idempotent lower sha256 q payload channels findings now later new_id other_id arrived others
      rows rows' out h =
    let (checked, r, found, same) =
      enqueue_ok lower sha256 q payload channels findings now new_id arrived rows h in
    rw (checked, found, enqueue_alert) (rw same refl)

admitted_sound :
    (lower : String → String) (q : Request) (payload : Dict Json) (channels : List Channel)
    (findings : List FindingRef)
    → admitted lower q payload channels findings ≡ ok tt
    → All (IsClean lower) payload
      × ((c : Channel) × (get_row channel_id q.alert_channel_id channels ≡ some c)
          × (c.tenant_id ≡ q.tenant_id)
          × (c.deleted_at ≡ none)
          × (is_channel_ready c ≡ true))
      × ((f : FindingRef) × (get_row finding_id q.finding_id findings ≡ some f)
          × (f.tenant_id ≡ q.tenant_id))
unfolding admitted
admitted_sound lower q payload channels findings h =
    ((accepted_iff lower payload).0 (ground arith), ground arith, ground arith)

module _ (lower sha256 : String → String) (q : Request) (payload : Dict Json)
    (channels : List Channel) (findings : List FindingRef) (now : Time) (new_id : ℕ)
    (arrived rows : List OutboxRow) where
  checked_of_ok :
      {out : EnqueueOutcome}
      → (enqueue_alert lower sha256 now new_id q payload channels findings arrived rows).0 ≡ ok out
      → admitted lower q payload channels findings ≡ ok tt
  unfolding enqueue_alert
  checked_of_ok h = ground (arith, h)

-- A request that is accepted, whether it creates a row or finds one, has a clean payload, and a
-- live, ready channel and a finding that both belong to the tenant of the request.
pub enqueue_isolated :
    (lower sha256 : String → String) (q : Request) (payload : Dict Json) (channels : List Channel)
    (findings : List FindingRef) (now : Time) (new_id : ℕ) (arrived rows : List OutboxRow)
    (out : EnqueueOutcome)
    → (enqueue_alert lower sha256 now new_id q payload channels findings arrived rows).0 ≡ ok out
    → All (IsClean lower) payload
      × ((c : Channel) × (get_row channel_id q.alert_channel_id channels ≡ some c)
          × (c.tenant_id ≡ q.tenant_id)
          × (c.deleted_at ≡ none)
          × (is_channel_ready c ≡ true))
      × ((f : FindingRef) × (get_row finding_id q.finding_id findings ≡ some f)
          × (f.tenant_id ≡ q.tenant_id))
enqueue_isolated lower sha256 q payload channels findings now new_id arrived rows out accepted =
    admitted_sound lower q payload channels findings
      (checked_of_ok lower sha256 q payload channels findings now new_id arrived rows accepted)
