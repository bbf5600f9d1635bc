-- ===== src/Outbox/Channels.antt =====
-- `_assert_channel_ready`, `enable_alert_channel` and `soft_delete_alert_channel` of
-- app/collection/service.py, and the service errors that they raise.
use threatforge.Common.{
  ℕ, String, Bool, true, false, not, ◌||◌, ◌&&◌, Option, none, some, List, [], ◌∷◌, Result, ok, err,
  str_eq, is_none, update, get_row, ◌==◌, if◌then◌else◌,
}
use threatforge.Models.{Time, Dict, Channel, lookup}

pub data ServiceError : Type 0 where
  not_found tenant_mismatch channel_not_ready identity_conflict provider_mismatch unknown_provider
        unknown_channel_type :
      ServiceError

-- Some of the keys is missing from the dict.
unfoldable pub misses {ℓ} : {V : Type ℓ} → List String → Dict V → Bool
unfolding lookup
misses [] d = false
misses (k ∷ keys) d = is_none (lookup k d) || misses keys d

-- `_REQUIRED_CHANNEL_CONFIG.get(channel_type, (set(), set()))`
abbrev pub required_config : String → List String
required_config t =
    if str_eq t "telegram"
    then "chat_id" ∷ []
    else if str_eq t "email" || str_eq t "smtp"
    then "smtp_host" ∷ "smtp_from" ∷ "smtp_to" ∷ []
    else []

abbrev pub required_secrets : String → List String
required_secrets t =
    if str_eq t "telegram"
    then "bot_token" ∷ []
    else if str_eq t "webhook"
    then "webhook_url" ∷ []
    else []

-- The channel passes the check.
unfoldable pub is_channel_ready : Channel → Bool
is_channel_ready c =
    is_none c.deleted_at
    && (c.enabled
        && not (
            misses (required_config c.channel_type) c.config_json
            || misses (required_secrets c.channel_type) c.secret_refs))

abbrev pub channel_id : Channel → ℕ
channel_id c = c.id

-- The live channel of a tenant: one row, since the id is the primary key.
abbrev own_channel : ℕ → Option Channel → Option Channel
own_channel tenant none = none
own_channel tenant (some c) =
    if (c.tenant_id == tenant) && is_none c.deleted_at then some c else none

abbrev put_channel : Channel → List Channel → List Channel
put_channel c rows = update (λ x. x.id == c.id) (λ _. c) rows

abbrev enabled_if_ready : Time → Channel → List Channel → Result ServiceError Channel × List Channel
enabled_if_ready now c rows =
    let on = record c { enabled = true } in
    if is_channel_ready on
    then (ok (record on { updated_at = now }), put_channel (record on { updated_at = now }) rows)
    else (err channel_not_ready, put_channel (record c { enabled = false }) rows)

-- When the check raises, the session's channel is left disabled.
unfoldable pub enable_alert_channel :
    Time → ℕ → ℕ → List Channel → Result ServiceError Channel × List Channel
enable_alert_channel now tenant id rows = elim (own_channel tenant (get_row channel_id id rows)) [
  | none ↦ (err not_found, rows)
  | some c ↦ enabled_if_ready now c rows
]

unfoldable pub soft_delete_alert_channel :
    Time → ℕ → ℕ → Option String → List Channel → Result ServiceError Channel × List Channel
soft_delete_alert_channel now tenant id actor rows =
    elim (own_channel tenant (get_row channel_id id rows)) [
      | none ↦ (err not_found, rows)
      | some c ↦
          let gone = record c {
            enabled = false;
            deleted_at = some now;
            deleted_by = actor;
            updated_at = now;
          } in
          (ok gone, put_channel gone rows)
    ]
