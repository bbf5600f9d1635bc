-- ===== src/Outbox.antt =====
-- app/collection/outbox.py and the alert outbox of app/collection/service.py: `enqueue_alert`,
-- `mark_delivered`, `mark_failed`. The tables of channels, findings and outbox rows are lists.
mod DedupKey
mod Payload
mod Channels
unfoldable pub use Payload.*
unfoldable pub use Channels.*
unfoldable pub use DedupKey.*
pub mod Enqueue
pub mod KeyApart
pub mod Reuse
pub mod Marks
mod Tests
use threatforge.Common.{
  ℕ, ◌+◌, String, Bool, true, false, not, ◌&&◌, ◌||◌, Option, none, some, List, [], ◌∷◌, ◌++◌,
  Result, ok, err, str_eq, take_text, is_none, any, find?, get_row, update, ◌==◌, if◌then◌else◌,
}
use threatforge.Models.{Time, Json, Dict, Channel, OutboxRow, OutboxStatus}
use threatforge.Queue.{next_backoff}

-- The columns of `ExposureFinding` that the service reads.
pub record FindingRef : Type 0 where
  pub id : ℕ
  pub tenant_id : ℕ

abbrev pub finding_id : FindingRef → ℕ
finding_id f = f.id

abbrev pub outbox_id : OutboxRow → ℕ
outbox_id r = r.id

pub data EnqueueError : Type 0 where
  payload_error : PayloadError → EnqueueError
  service_error : ServiceError → EnqueueError

pub record EnqueueOutcome : Type 0 where
  pub created : Bool
  pub outbox_id : ℕ
  pub dedup_key : String
  pub status : OutboxStatus

-- The arguments of `enqueue_alert`, but for the payload.
pub record Request : Type 0 where
  pub tenant_id : ℕ
  pub alert_channel_id : ℕ
  pub finding_id : ℕ
  pub template : String
  pub template_version : String
  pub external_channel_ref : Option String

-- `AlertOutbox.dedup_key == dedup_key`
unfoldable pub by_key : String → List OutboxRow → Option OutboxRow
by_key key rows = find? (λ r. str_eq r.dedup_key key) rows

abbrev pub outcome : Bool → OutboxRow → EnqueueOutcome
outcome created r = record {
  created = created;
  outbox_id = r.id;
  dedup_key = r.dedup_key;
  status = r.status;
}

-- The channel's and the finding's checks, in the order of the code.
abbrev channel_check : ℕ → Option Channel → Result ServiceError (Unit {0})
channel_check tenant none = err not_found
channel_check tenant (some c) =
    if not (is_none c.deleted_at)
    then err not_found
    else if not (c.tenant_id == tenant)
    then err tenant_mismatch
    else if is_channel_ready c
    then ok tt
    else err channel_not_ready

abbrev finding_check : ℕ → Option FindingRef → Result ServiceError (Unit {0})
finding_check tenant none = err not_found
finding_check tenant (some f) = if f.tenant_id == tenant then ok tt else err tenant_mismatch

-- The checks that come before the dedup key.
unfoldable pub admitted :
    (String → String)
    → Request
    → Dict Json
    → List Channel
    → List FindingRef
    → Result EnqueueError (Unit {0})
admitted lower q payload channels findings = elim (assert_payload_clean lower payload) [
  | err e ↦ err (payload_error e)
  | ok _ ↦ elim (channel_check q.tenant_id (get_row channel_id q.alert_channel_id channels)) [
    | err e ↦ err (service_error e)
    | ok _ ↦ elim (finding_check q.tenant_id (get_row finding_id q.finding_id findings)) [
      | err e ↦ err (service_error e)
      | ok _ ↦ ok tt
    ]
  ]
]

module _ (lower sha256 : String → String) where
  abbrev pub key_of : Request → String
  key_of q =
      compute_dedup_key sha256 q.tenant_id q.finding_id q.alert_channel_id q.template
        q.template_version

  -- The row that is added; `new_id` is the id that the database gives it.
  unfoldable pub new_row : Time → ℕ → Request → Dict Json → OutboxRow
  new_row now new_id q payload = record {
    id = new_id;
    tenant_id = q.tenant_id;
    alert_channel_id = q.alert_channel_id;
    finding_id = some q.finding_id;
    external_channel_ref = q.external_channel_ref;
    template = q.template;
    template_version = q.template_version;
    dedup_key = key_of q;
    status = OutboxStatus.pending;
    attempts = 0;
    next_attempt_at = none;
    delivered_at = none;
    error_code = none;
    payload_json = payload;
    created_at = now;
    updated_at = now;
  }

  -- The insert under the unique key: `rows` now holds what other transactions have committed since.
  abbrev insert_or_reuse :
      Time
      → ℕ
      → Request
      → Dict Json
      → List OutboxRow
      → Option OutboxRow
      → Result EnqueueError EnqueueOutcome × List OutboxRow
  insert_or_reuse now new_id q payload rows (some r) = (ok (outcome false r), rows)
  insert_or_reuse now new_id q payload rows none =
      (ok (outcome true (new_row now new_id q payload)), new_row now new_id q payload ∷ rows)

  abbrev enqueue_admitted :
      Time
      → ℕ
      → Request
      → Dict Json
      → List OutboxRow
      → List OutboxRow
      → Option OutboxRow
      → Result EnqueueError EnqueueOutcome × List OutboxRow
  enqueue_admitted now new_id q payload arrived rows (some r) = (ok (outcome false r), rows)
  enqueue_admitted now new_id q payload arrived rows none =
      insert_or_reuse now new_id q payload (arrived ++ rows) (by_key (key_of q) (arrived ++ rows))

  -- `arrived` are the rows that other transactions commit between the lookup and the insert.
  unfoldable pub enqueue_alert :
      Time
      → ℕ
      → Request
      → Dict Json
      → List Channel
      → List FindingRef
      → List OutboxRow
      → List OutboxRow
      → Result EnqueueError EnqueueOutcome × List OutboxRow
  enqueue_alert now new_id q payload channels findings arrived rows =
      elim (admitted lower q payload channels findings) [
        | err e ↦ (err e, rows)
        | ok _ ↦ enqueue_admitted now new_id q payload arrived rows (by_key (key_of q) rows)
      ]

-- `_get_outbox`: the row of the id, if it is the tenant's.
abbrev pub own_row : ℕ → Option OutboxRow → Option OutboxRow
own_row tenant none = none
own_row tenant (some r) = if r.tenant_id == tenant then some r else none

abbrev pub delivered_row : Time → OutboxRow → OutboxRow
delivered_row now r = record r {
  status = OutboxStatus.delivered;
  delivered_at = some now;
  error_code = none;
  updated_at = now;
}

-- `next_attempt_at` is left alone when the row becomes a dead letter.
abbrev pub failed_row : Time → String → Bool → OutboxRow → OutboxRow
failed_row now code dead r =
    if dead
    then record r {
      attempts = r.attempts + 1;
      error_code = some (take_text 60 code);
      status = OutboxStatus.dead_letter;
      updated_at = now;
    }
    else record r {
      attempts = r.attempts + 1;
      error_code = some (take_text 60 code);
      status = OutboxStatus.failed;
      next_attempt_at = some (next_backoff (r.attempts + 1) 30 3600 now);
      updated_at = now;
    }

abbrev mark :
    (OutboxRow → OutboxRow)
    → ℕ
    → ℕ
    → List OutboxRow
    → Result ServiceError OutboxRow × List OutboxRow
mark f tenant id rows = elim (own_row tenant (get_row outbox_id id rows)) [
  | none ↦ (err not_found, rows)
  | some r ↦ (ok (f r), update (λ x. x.id == id) f rows)
]

unfoldable pub mark_delivered :
    Time → ℕ → ℕ → List OutboxRow → Result ServiceError OutboxRow × List OutboxRow
mark_delivered now tenant id rows = mark (delivered_row now) tenant id rows

unfoldable pub mark_failed :
    Time → ℕ → ℕ → String → Bool → List OutboxRow → Result ServiceError OutboxRow × List OutboxRow
mark_failed now tenant id code dead rows = mark (failed_row now code dead) tenant id rows

-- `is_terminal`
unfoldable pub is_terminal : OutboxStatus → Bool
is_terminal OutboxStatus.delivered = true
is_terminal OutboxStatus.dead_letter = true
is_terminal _ = false
