-- ===== src/Outbox/Reuse.antt =====
-- Whose row an enqueueing reuses.
use threatforge.Common.{
  ℕ, String, ◌≡◌, refl, sym, ap, ◌∙◌, Option, none, some, List, [], ◌∷◌, ◌++◌, ok, inl, inr, arith,
  find?, All, Bool-cases, Result-cases, subst, str_eq,
}
use threatforge.Models.{Time, Json, Dict, Channel, OutboxRow}
use threatforge.Outbox.{
  FindingRef, EnqueueOutcome, Request, by_key, outcome, admitted, key_of, new_row, enqueue_alert,
  enqueue_admitted, insert_or_reuse, compute_dedup_key,
}
use threatforge.Outbox.Enqueue.{enqueue_ok, key-by_key}
use threatforge.Outbox.KeyApart.{key_apart}

-- The row announces a finding, and its dedup key is that of its own columns.
abbrev pub IsOwn : (String → String) → OutboxRow → Type 0
IsOwn sha256 r =
    (finding : ℕ) × (r.finding_id ≡ some finding)
    × (r.dedup_key
        ≡ compute_dedup_key sha256 r.tenant_id finding r.alert_channel_id r.template
            r.template_version)

All-append :
    (P : OutboxRow → Type 0) (xs ys : List OutboxRow) → All P xs → All P ys → All P (xs ++ ys)
All-append P [] ys h k = k
All-append P (x ∷ xs) ys h k = (h.0, All-append P xs ys h.1 k)

All-by_key :
    (P : OutboxRow → Type 0) (key : String) (rows : List OutboxRow) (r : OutboxRow)
    → All P rows
    → by_key key rows ≡ some r
    → P r
unfolding by_key find?
All-by_key P key [] r h found = absurd (ground arith)
All-by_key P key (x ∷ rows) r h found = elim (Bool-cases (str_eq x.dedup_key key)) [
  | inl hit ↦ subst P (ground (arith, hit, found)) h.0
  | inr miss ↦ All-by_key P key rows r h.1 (ground (arith, miss, found))
]

module _ (lower sha256 : String → String) (q : Request) (payload : Dict Json) where
  inserted-IsOwn :
      (now : Time) (new_id : ℕ) (rows : List OutboxRow) (o : Option OutboxRow)
      → All (IsOwn sha256) rows
      → All (IsOwn sha256) (insert_or_reuse lower sha256 now new_id q payload rows o).1
  unfolding new_row
  inserted-IsOwn now new_id rows (some r) own = own
  inserted-IsOwn now new_id rows none own = ((q.finding_id, refl, refl), own)

  admitted-IsOwn :
      (now : Time) (new_id : ℕ) (arrived rows : List OutboxRow) (o : Option OutboxRow)
      → All (IsOwn sha256) arrived
      → All (IsOwn sha256) rows
      → All (IsOwn sha256) (enqueue_admitted lower sha256 now new_id q payload arrived rows o).1
  admitted-IsOwn now new_id arrived rows (some r) others own = own
  admitted-IsOwn now new_id arrived rows none others own =
      inserted-IsOwn now new_id (arrived ++ rows) (by_key (key_of lower sha256 q) (arrived ++ rows))
        (All-append (IsOwn sha256) arrived rows others own)

  enqueue_alert-IsOwn :
      (channels : List Channel) (findings : List FindingRef) (now : Time) (new_id : ℕ)
      (arrived rows : List OutboxRow)
      → All (IsOwn sha256) arrived
      → All (IsOwn sha256) rows
      → All
          (IsOwn sha256)
          (enqueue_alert lower sha256 now new_id q payload channels findings arrived rows).1
  unfolding enqueue_alert
  enqueue_alert-IsOwn channels findings now new_id arrived rows others own =
      elim (Result-cases (admitted lower q payload channels findings)) [
        | inl (u, e) ↦
            rw (e, enqueue_alert)
              (admitted-IsOwn now new_id arrived rows (by_key (key_of lower sha256 q) rows) others
                own)
        | inr (x, e) ↦ rw (e, enqueue_alert) own
      ]

-- If the digest does not collide and the dedup key of every row, also of those that others commit
-- meanwhile, is that of its own columns, then so it is after an enqueueing, and the row that a
-- successful enqueueing answers with, created or reused, announces the request's finding of the
-- request's tenant on the request's channel.
pub reuse-IsOwn :
    (lower sha256 : String → String) (q : Request) (payload : Dict Json) (channels : List Channel)
    (findings : List FindingRef) (now : Time) (new_id : ℕ) (arrived rows rows' : List OutboxRow)
    (out : EnqueueOutcome)
    → ((a b : String) → sha256 a ≡ sha256 b → a ≡ b)
    → All (IsOwn sha256) arrived
    → All (IsOwn sha256) rows
    → enqueue_alert lower sha256 now new_id q payload channels findings arrived rows
      ≡ (ok out, rows')
    → All (IsOwn sha256) rows'
      × (r : OutboxRow) × (by_key (key_of lower sha256 q) rows' ≡ some r)
      × (out ≡ outcome out.created r)
      × (r.tenant_id ≡ q.tenant_id)
      × (r.finding_id ≡ some q.finding_id)
      × (r.alert_channel_id ≡ q.alert_channel_id)
reuse-IsOwn lower sha256 q payload channels findings now new_id arrived rows rows' out apart others
      own h =
    let (checked, r, found, same) =
      enqueue_ok lower sha256 q payload channels findings now new_id arrived rows h in
    let kept =
      subst (λ a. All (IsOwn sha256) a.1) h
        (enqueue_alert-IsOwn lower sha256 q payload channels findings now new_id arrived rows others
          own) in
    let (finding, announced, key) =
      All-by_key (IsOwn sha256) (key_of lower sha256 q) rows' r kept found in
    let equal =
      key_apart sha256 r.tenant_id finding r.alert_channel_id q.tenant_id q.finding_id
        q.alert_channel_id r.template r.template_version q.template q.template_version apart
        (sym key ∙ key-by_key (key_of lower sha256 q) rows' r found) in
    (kept, r, found, same, equal.0, announced ∙ ap some equal.1, equal.2)
