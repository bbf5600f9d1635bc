-- ===== src/Setup/Clean.antt =====
-- What the creation of a connection or of an alert channel leaves in the table.
use threatforge.Common.{
  ℕ, String, ◌≡◌, refl, true, false, Option, none, some, List, [], ◌∷◌, Result, ok, err, inl, inr,
  ◌⊎◌, All, any, concat, Bool-cases,
}
use threatforge.Models.{Time, Json, Dict, Connection, ConnectionStatus, Channel}
use threatforge.Outbox.{unknown_provider, unknown_channel_type}
use threatforge.Connections.{service, integrity}
use threatforge.Registry.{is_registered}
use threatforge.Secrets.{
  Classifier, SecretResolver, ReferenceError, clean, classify_payload, secrets_metadata,
  persist_secrets, provider_allowed_config, channel_allowed_config,
}
use threatforge.Secrets.Clean.{Storable, classify_clean}
use threatforge.Setup.{
  CreateError, call_refused, reference_refused, same_name, same_channel_name, create_connection,
  add_submitted, add_connection, pending_connection, require_registered_provider, submit_refs,
  create_alert_channel, add_channel, new_channel, require_registered_alert_channel,
}

-- Nothing of the payload that is secret stands in the row, which is new, disabled and pending.
abbrev pub IsCleanConnection : {T : Type 0} → Classifier → Dict T → ℕ → Connection → Type 0
IsCleanConnection env providers tenant c =
    All (Storable env (some (provider_allowed_config (clean env c.provider)))) c.config_json
    × (is_registered (clean env) c.provider providers ≡ true)
    × (c.tenant_id ≡ tenant)
    × (c.enabled ≡ false)
    × (c.status ≡ ConnectionStatus.pending)

abbrev Created : {A : Type 0} → (A → Type 0) → List A → Result CreateError A × List A → Type 0
Created {A} P rows r =
    ((c : A) × (r.0 ≡ ok c) × (r.1 ≡ c ∷ rows) × P c)
    ⊎ ((e : CreateError) × (r.0 ≡ err e) × (r.1 ≡ rows))

add_connection-Created :
    (P : Connection → Type 0) (c : Connection) (rows : List Connection)
    → P c
    → Created P rows (add_connection c rows)
unfolding add_connection
add_connection-Created P c rows h = elim (Bool-cases (any (same_name c.tenant_id c.name) rows)) [
  | inl taken ↦ rw (taken) (inr (call_refused integrity, refl, refl))
  | inr free ↦ rw (free) (inl (c, refl, refl, h))
]

add_channel-Created :
    (P : Channel → Type 0) (c : Channel) (rows : List Channel)
    → P c
    → Created P rows (add_channel c rows)
unfolding add_channel
add_channel-Created P c rows h =
    elim (Bool-cases (any (same_channel_name c.tenant_id c.name) rows)) [
      | inl taken ↦ rw (taken) (inr (call_refused integrity, refl, refl))
      | inr free ↦ rw (free) (inl (c, refl, refl, h))
    ]

-- Nothing of the payload that is secret stands in the row, which is new and disabled.
abbrev pub IsCleanChannel : Classifier → Dict String → ℕ → Channel → Type 0
IsCleanChannel env channels tenant c =
    All (Storable env (some (channel_allowed_config (clean env c.channel_type)))) c.config_json
    × (is_registered (clean env) c.channel_type channels ≡ true)
    × (c.tenant_id ≡ tenant)
    × (c.enabled ≡ false)

module _ (env : Classifier) {S : Type 0} (resolver : SecretResolver S) where
  submitted-Created :
      (P : Connection → Type 0) (now : Time) (new_id tenant : ℕ) (provider name : String)
      (actor : Option String) (config : Dict Json)
      (r : Result ReferenceError (Dict String × Dict Json)) (rows : List Connection)
      → ((held : Dict String × Dict Json)
          → P (pending_connection env now new_id tenant provider name actor config held))
      → Created P rows
          (add_submitted env resolver now new_id tenant provider name actor config r rows)
  submitted-Created P now new_id tenant provider name actor config (err e) rows h =
      inr (reference_refused e, refl, refl)
  submitted-Created P now new_id tenant provider name actor config (ok held) rows h =
      add_connection-Created P
        (pending_connection env now new_id tenant provider name actor config held) rows (h held)

  -- A creation adds one connection of the tenant, or raises and leaves the table as it is. The
  -- connection is disabled and pending, its provider is registered, and no entry of its `config_json`
  -- has a secret's name, a URL with a token as its value, or a name outside the provider's schema.
  pub create_connection_clean :
      {T : Type 0} (providers : Dict T) (now : Time) (new_id tenant : ℕ) (provider name : String)
      (payload : Dict Json) (secret_refs : Dict String) (actor : Option String)
      (rows : List Connection) (st : S)
      → let r =
          create_connection env resolver providers now new_id tenant provider name payload
            secret_refs actor rows st in
        ((c : Connection) × (r.0 ≡ ok c)
          × (r.1 ≡ c ∷ rows)
          × IsCleanConnection env providers tenant c)
        ⊎ ((e : CreateError) × (r.0 ≡ err e) × (r.1 ≡ rows))
  unfolding create_connection require_registered_provider
  create_connection_clean providers now new_id tenant provider name payload secret_refs actor rows
        st =
      let key = clean env provider in
      let split = classify_payload env payload none (some key) in
      elim (Bool-cases (is_registered (clean env) key providers)) [
        | inl known ↦ rw (known) (
            submitted-Created (IsCleanConnection env providers tenant) now new_id tenant key name
              actor split.config_json
              (submit_refs env env.unicode.is_space secret_refs
                (persist_secrets resolver tenant (concat ("connection:" ∷ name ∷ [])) split st).0
                (secrets_metadata split))
              rows (λ held. (classify_clean env payload none (some key), known, refl, refl, refl)))
        | inr unknown ↦ rw (unknown) (inr (call_refused (service unknown_provider), refl, refl))
      ]

  -- A creation adds one alert channel of the tenant, or raises and leaves the table as it is. The
  -- channel is disabled, its type is registered, and no entry of its `config_json` has a secret's
  -- name, a URL with a token as its value, or a name outside the type's schema.
  pub create_channel_clean :
      (channels : Dict String) (now : Time) (new_id tenant : ℕ) (name kind : String)
      (payload : Dict Json) (actor : Option String) (rows : List Channel) (st : S)
      → let r =
          create_alert_channel env resolver channels now new_id tenant name kind payload actor rows
            st in
        ((c : Channel) × (r.0 ≡ ok c) × (r.1 ≡ c ∷ rows) × IsCleanChannel env channels tenant c)
        ⊎ ((e : CreateError) × (r.0 ≡ err e) × (r.1 ≡ rows))
  unfolding create_alert_channel require_registered_alert_channel
  create_channel_clean channels now new_id tenant name kind payload actor rows st =
      let key = clean env kind in
      let split = classify_payload env payload (some key) none in
      elim (Bool-cases (is_registered (clean env) key channels)) [
        | inl known ↦ rw (known) (
            add_channel-Created (IsCleanChannel env channels tenant)
              (new_channel env resolver now new_id tenant key name actor split.config_json
                (persist_secrets resolver tenant (concat ("channel:" ∷ name ∷ [])) split st).0
                (secrets_metadata split))
              rows (classify_clean env payload (some key) none, known, refl, refl))
        | inr unknown ↦ rw (unknown) (inr (call_refused (service unknown_channel_type), refl, refl))
      ]
