-- ===== src/Worker/Failures.antt =====
-- app/collection/runtime.py: what is kept of an exception of a provider.
use threatforge.Common.{ℕ, String, Option, none, some, List, [], ◌∷◌, any, str_eq, if◌then◌else◌}

abbrev pub allowed_error_codes : List String
allowed_error_codes =
    "credential_unavailable" ∷ "invalid_credential_format" ∷ "unauthorized" ∷ "rate_limited"
    ∷ "collector_conflict" ∷ "provider_rejected" ∷ "provider_unavailable" ∷ "timeout"
    ∷ "invalid_provider_response" ∷ "invalid_cursor" ∷ "unsafe_api_base" ∷ []

abbrev pub allowed_states : List String
allowed_states = "healthy" ∷ "degraded" ∷ "unauthorized" ∷ "offline" ∷ "pending" ∷ []

-- An attribute that is an `int`, by its sign; a Boolean is one. The natural number of `negative`
-- is the amount below zero.
pub data IntAttribute : Type 0 where
  natural negative : ℕ → IntAttribute
  no_int : IntAttribute

-- The attributes of an exception that are read, by `str` where the code makes a text of them.
pub record ProviderFailure : Type 0 where
  pub code : Option String
  pub state : Option String
  pub retry_after_seconds : IntAttribute
  pub http_status : IntAttribute

pub record Diagnostic : Type 0 where
  pub code : String
  pub state : String
  pub retry_after_seconds : Option ℕ
  pub http_status : IntAttribute

abbrev pub one_of : List String → String → Option String → String
one_of vocabulary other none = other
one_of vocabulary other (some t) = if any (str_eq t) vocabulary then t else other

abbrev not_below_zero : IntAttribute → Option ℕ
not_below_zero (natural n) = some n
not_below_zero _ = none

unfoldable pub provider_diagnostic : ProviderFailure → Diagnostic
provider_diagnostic e = record {
  code = one_of allowed_error_codes "provider_error" e.code;
  state = one_of allowed_states "degraded" e.state;
  retry_after_seconds = not_below_zero e.retry_after_seconds;
  http_status = e.http_status;
}
