-- ===== src/Setup.antt =====
-- `create_connection` and `create_alert_channel` of app/collection/service.py, with the checks of the
-- registries and the calls that resolve a stored secret. `S` is the state of the secret resolver.
pub mod Clean
pub mod Resolve
pub mod Readable
mod Tests
use threatforge.Common.{
  ℕ, String, Bool, true, false, not, ◌&&◌, Option, none, some, List, [], ◌∷◌, Result, ok, err, any,
  str_eq, is_none, concat, ◌==◌, if◌then◌else◌,
}
use threatforge.Models.{Time, Json, Fields, Dict, Connection, ConnectionStatus, Channel, insert}
use threatforge.Outbox.{ServiceError, unknown_provider, unknown_channel_type}
use threatforge.Connections.{CallError, service, integrity}
use threatforge.Registry.{is_registered}
use threatforge.Secrets.{
  Classifier, ChannelSecretSplit, SecretResolver, SecretWorld, ReferenceError, clean,
  classify_payload, secrets_metadata, validate_opaque_ref, persist_secrets, resolve_secret,
}

-- What a creation raises.
pub data CreateError : Type 0 where
  call_refused : CallError → CreateError
  reference_refused : ReferenceError → CreateError

-- The rows that the indexes `uq_coll_conn_tenant_name_live` and `uq_alert_channel_name_live` hold.
abbrev pub same_name : ℕ → String → Connection → Bool
same_name tenant name c = (c.tenant_id == tenant) && (str_eq c.name name && is_none c.deleted_at)

abbrev pub same_channel_name : ℕ → String → Channel → Bool
same_channel_name tenant name c =
    (c.tenant_id == tenant) && (str_eq c.name name && is_none c.deleted_at)

-- Adding the row, and the flush.
unfoldable pub add_connection :
    Connection → List Connection → Result CreateError Connection × List Connection
add_connection c rows =
    if any (same_name c.tenant_id c.name) rows
    then (err (call_refused integrity), rows)
    else (ok c, c ∷ rows)

unfoldable pub add_channel : Channel → List Channel → Result CreateError Channel × List Channel
add_channel c rows =
    if any (same_channel_name c.tenant_id c.name) rows
    then (err (call_refused integrity), rows)
    else (ok c, c ∷ rows)

abbrev pub opaque_metadata : Json
opaque_metadata = Json.obj (
    Fields.field "present" (Json.bool true) (
      Fields.field "kind" (Json.str "opaque_ref")
        (Fields.field "masked" (Json.str "***") Fields.end)))

module _ (env : Classifier) where
  -- `_require_registered_provider`
  unfoldable pub require_registered_provider :
      {T : Type 0} → Dict T → String → Result ServiceError String
  require_registered_provider providers provider =
      if is_registered (clean env) (clean env provider) providers
      then ok (clean env provider)
      else err unknown_provider

  -- `_require_registered_alert_channel`
  unfoldable pub require_registered_alert_channel :
      Dict String → String → Result ServiceError String
  require_registered_alert_channel channels kind =
      if is_registered (clean env) (clean env kind) channels
      then ok (clean env kind)
      else err unknown_channel_type

  -- The loop over the references that the caller submits, with the references and the metadata so far.
  unfoldable pub submit_refs :
      (ℕ → Bool)
      → Dict String
      → Dict String
      → Dict Json
      → Result ReferenceError (Dict String × Dict Json)
  submit_refs space [] refs metadata = ok (refs, metadata)
  submit_refs space ((raw_name, raw_ref) ∷ more) refs metadata =
      elim (validate_opaque_ref space raw_ref) [
        | err e ↦ err e
        | ok ref ↦
            submit_refs space more (insert (clean env raw_name) ref refs)
              (insert (clean env raw_name) opaque_metadata metadata)
      ]

  abbrev pub pending_connection :
      Time
      → ℕ
      → ℕ
      → String
      → String
      → Option String
      → Dict Json
      → Dict String × Dict Json
      → Connection
  pending_connection now new_id tenant provider name actor config (refs, metadata) = record {
    id = new_id;
    tenant_id = tenant;
    provider = provider;
    name = name;
    enabled = false;
    status = ConnectionStatus.pending;
    provider_account_ref = none;
    cursor = none;
    config_json = config;
    secret_refs = refs;
    secrets_metadata = metadata;
    created_at = now;
    updated_at = now;
    created_by = actor;
    revoked_at = none;
    revoked_by = none;
    deleted_at = none;
    deleted_by = none;
  }

  module _ {S : Type 0} (resolver : SecretResolver S) where
    abbrev pub add_submitted :
        Time
        → ℕ
        → ℕ
        → String
        → String
        → Option String
        → Dict Json
        → Result ReferenceError (Dict String × Dict Json)
        → List Connection
        → Result CreateError Connection × List Connection
    add_submitted now new_id tenant provider name actor config (err e) rows =
        (err (reference_refused e), rows)
    add_submitted now new_id tenant provider name actor config (ok held) rows =
        add_connection (pending_connection now new_id tenant provider name actor config held) rows

    abbrev pub create_for :
        Time
        → ℕ
        → ℕ
        → String
        → Dict Json
        → Dict String
        → Option String
        → List Connection
        → S
        → Result ServiceError String
        → Result CreateError Connection × List Connection × S
    create_for now new_id tenant name payload secret_refs actor rows st (err e) =
        (err (call_refused (service e)), rows, st)
    create_for now new_id tenant name payload secret_refs actor rows st (ok provider) =
        let split = classify_payload env payload none (some provider) in
        let stored =
          persist_secrets resolver tenant (concat ("connection:" ∷ name ∷ [])) split st in
        let made =
          add_submitted now new_id tenant provider name actor split.config_json
            (submit_refs env.unicode.is_space secret_refs stored.0 (secrets_metadata split)) rows in
        (made.0, made.1, stored.2)

    unfoldable pub create_connection :
        {T : Type 0}
        → Dict T
        → Time
        → ℕ
        → ℕ
        → String
        → String
        → Dict Json
        → Dict String
        → Option String
        → List Connection
        → S
        → Result CreateError Connection × List Connection × S
    create_connection providers now new_id tenant provider name payload secret_refs actor rows st =
        create_for now new_id tenant name payload secret_refs actor rows st
          (require_registered_provider providers provider)

    abbrev pub new_channel :
        Time
        → ℕ
        → ℕ
        → String
        → String
        → Option String
        → Dict Json
        → Dict String
        → Dict Json
        → Channel
    new_channel now new_id tenant kind name actor config refs metadata = record {
      id = new_id;
      tenant_id = tenant;
      name = name;
      channel_type = kind;
      enabled = false;
      config_json = config;
      secret_refs = refs;
      secrets_metadata = metadata;
      created_at = now;
      updated_at = now;
      created_by = actor;
      deleted_at = none;
      deleted_by = none;
    }

    abbrev pub create_channel_for :
        Time
        → ℕ
        → ℕ
        → String
        → Dict Json
        → Option String
        → List Channel
        → S
        → Result ServiceError String
        → Result CreateError Channel × List Channel × S
    create_channel_for now new_id tenant name payload actor rows st (err e) =
        (err (call_refused (service e)), rows, st)
    create_channel_for now new_id tenant name payload actor rows st (ok kind) =
        let split = classify_payload env payload (some kind) none in
        let stored = persist_secrets resolver tenant (concat ("channel:" ∷ name ∷ [])) split st in
        let made =
          add_channel
            (new_channel now new_id tenant kind name actor split.config_json stored.0
              (secrets_metadata split))
            rows in
        (made.0, made.1, stored.2)

    unfoldable pub create_alert_channel :
        Dict String
        → Time
        → ℕ
        → ℕ
        → String
        → String
        → Dict Json
        → Option String
        → List Channel
        → S
        → Result CreateError Channel × List Channel × S
    create_alert_channel channels now new_id tenant name kind payload actor rows st =
        create_channel_for now new_id tenant name payload actor rows st
          (require_registered_alert_channel channels kind)

    unfoldable pub resolve_connection_secret : SecretWorld → Connection → String → S → Option String
    resolve_connection_secret world c name st = resolve_secret resolver world c.secret_refs name st

    unfoldable pub resolve_channel_secret : SecretWorld → Channel → String → S → Option String
    resolve_channel_secret world c name st = resolve_secret resolver world c.secret_refs name st
