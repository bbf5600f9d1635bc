-- ===== src/Secrets/Classify.antt =====
-- `classify_payload` of app/collection/secrets.py: a payload is split into what may be stored and
-- what is secret.
use threatforge.Common.{
  String, Bool, false, not, ◌&&◌, ◌||◌, Option, none, some, List, [], ◌∷◌, ◌++◌, str_eq,
  if◌then◌else◌,
}
use threatforge.Models.{Json, Fields, Dict, insert, text_of}
use threatforge.Outbox.{contains}
use threatforge.Secrets.Urls.{Unicode, UrlParts, strip, looks_like_url, webhook_url_is_secret}

abbrev pub secret_field_names : List String
secret_field_names =
    "token" ∷ "bot_token" ∷ "telegram_bot_token" ∷ "api_key" ∷ "api_token" ∷ "secret"
    ∷ "webhook_secret" ∷ "password" ∷ "smtp_password" ∷ "client_secret" ∷ "auth_key" ∷ "private_key"
    ∷ "signing_key" ∷ "key" ∷ "passphrase" ∷ []

-- `PROVIDER_ALLOWED_CONFIG.get(key, frozenset())`
abbrev pub provider_allowed_config : String → List String
provider_allowed_config key =
    if str_eq key "telegram"
    then "bot_username" ∷ "api_base_url" ∷ "poll_timeout_seconds" ∷ "allowed_updates" ∷ []
    else []

abbrev smtp_config : List String
smtp_config =
    "smtp_host" ∷ "smtp_port" ∷ "smtp_from" ∷ "smtp_to" ∷ "starttls" ∷ "subject_prefix" ∷ []

-- `CHANNEL_ALLOWED_CONFIG.get(key, frozenset())`
abbrev pub channel_allowed_config : String → List String
channel_allowed_config key =
    if str_eq key "telegram"
    then "chat_id" ∷ "thread_id" ∷ "parse_mode" ∷ "bot_username" ∷ []
    else if str_eq key "webhook"
    then "method" ∷ "content_type" ∷ "timeout_seconds" ∷ []
    else if str_eq key "email" || str_eq key "smtp"
    then smtp_config
    else []

pub record SecretRef : Type 0 where
  pub name : String
  pub kind : String
  pub present : Bool
  pub hint : String
  pub digest : String

pub record ChannelSecretSplit : Type 0 where
  pub config_json : Dict Json
  pub secret_refs : List SecretRef
  pub secret_values : Dict String

-- The functions that the classification is given.
pub record Classifier : Type 0 where
  pub unicode : Unicode
  pub urlsplit : String → Option UrlParts
  pub sha256 : String → String
  pub repr : Json → String

abbrev pub empty_split : ChannelSecretSplit
empty_split = record { config_json = []; secret_refs = []; secret_values = [] }

abbrev ref_metadata : SecretRef → Json
ref_metadata r = Json.obj (
    Fields.field "present" (Json.bool r.present)
      (Fields.field "kind" (Json.str r.kind) (Fields.field "masked" (Json.str r.hint) Fields.end)))

abbrev metadata_from : Dict Json → List SecretRef → Dict Json
metadata_from d [] = d
metadata_from d (r ∷ refs) = metadata_from (insert r.name (ref_metadata r) d) refs

unfoldable pub secrets_metadata : ChannelSecretSplit → Dict Json
secrets_metadata split = metadata_from [] split.secret_refs

module _ (env : Classifier) where
  -- `str(key).strip().lower()`
  abbrev pub clean : String → String
  clean key = env.unicode.lower (strip env.unicode.is_space key)

  -- `"" if value is None else str(value)`
  abbrev pub secret_text : Json → String
  secret_text Json.null = ""
  secret_text v = text_of env.repr v

  -- `_add_secret`
  unfoldable pub add_secret : ChannelSecretSplit → String → String → Json → ChannelSecretSplit
  add_secret split name kind value =
      let text = secret_text value in
      let held = not (str_eq text "") in
      record split {
        secret_values = insert name text split.secret_values;
        secret_refs =
            split.secret_refs
            ++ (record {
              name = name;
              kind = kind;
              present = held;
              hint = "***";
              digest = if held then env.sha256 text else "";
            }
                ∷ []);
      }

  abbrev pub is_token_url : Json → Bool
  is_token_url (Json.str s) =
      looks_like_url env.unicode.is_space (Json.str s)
      && webhook_url_is_secret env.unicode env.urlsplit s
  is_token_url _ = false

  -- Outside the schema, where one is given.
  abbrev pub is_outside : Option (List String) → String → Bool
  is_outside none key = false
  is_outside (some allowed) key = not (contains allowed key)

  unfoldable pub classify_entry :
      Option (List String) → String → Json → ChannelSecretSplit → ChannelSecretSplit
  unfolding add_secret
  classify_entry allowed raw_key value split =
      let key = clean raw_key in
      if contains secret_field_names key
      then add_secret split key "credential" value
      else if is_token_url value
      then add_secret split key "webhook_url_with_token" value
      else if is_outside allowed key
      then add_secret split key "unclassified_fail_closed" value
      else record split { config_json = insert raw_key value split.config_json }

  unfoldable pub classify_entries :
      Option (List String) → Dict Json → ChannelSecretSplit → ChannelSecretSplit
  classify_entries allowed [] split = split
  classify_entries allowed ((k, v) ∷ payload) split =
      classify_entries allowed payload (classify_entry allowed k v split)

  -- The schema: a channel's if its type is given, else a provider's if that is.
  abbrev pub schema : Option String → Option String → Option (List String)
  schema (some channel_type) provider = some (channel_allowed_config (clean channel_type))
  schema none (some provider) = some (provider_allowed_config (clean provider))
  schema none none = none

  unfoldable pub classify_payload : Dict Json → Option String → Option String → ChannelSecretSplit
  classify_payload payload channel_type provider =
      classify_entries (schema channel_type provider) payload empty_split
