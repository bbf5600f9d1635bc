-- ===== src/Setup/Tests.antt =====
-- A connection and a channel that are created, and the theorems at them.
use threatforge.Common.{
  ℕ, String, ◌≡◌, refl, Bool, true, false, ◌&&◌, none, some, [], ◌∷◌, ok, err, ◌⊎◌, arith, All, leb,
  ◌==◌, any, decimal, digits_from, digit,
}
use threatforge.Models.{Json, Dict, Connection, lookup, insert}
use threatforge.Outbox.{contains}
use threatforge.Registry.{get, is_registered}
use threatforge.Secrets.{
  Classifier, SecretWorld, MemoryStore, memory_resolver, clean, strip, strip_end, drop_while,
  has_scheme, after_word, looks_like_url, classify_payload, classify_entries, classify_entry,
  add_secret, secrets_metadata, persist_secrets, persist_each,
}
use threatforge.Secrets.Clean.{HasDistinctNames}
use threatforge.Setup.{
  CreateError, create_connection, require_registered_provider, submit_refs, add_connection,
  pending_connection,
}
use threatforge.Setup.Clean.{IsCleanConnection, create_connection_clean}
use threatforge.Setup.Resolve.{IsAsciiFree}
use threatforge.Setup.Readable.{CanRead, IsFree, create-resolve_secret}

abbrev is_blank : ℕ → Bool
is_blank c = c == 32

abbrev classifier : Classifier
classifier = record {
  unicode = record {
    is_space = is_blank;
    is_digit = λ c. leb b'0' c && leb c b'9';
    lower = λ t. t;
  };
  urlsplit = λ t. none;
  sha256 = λ t. t;
  repr = λ _. "";
}

abbrev providers : Dict String
providers = ("telegram", "provider") ∷ []

abbrev payload : Dict Json
payload = ("bot_username", Json.str "bot") ∷ ("bot_token", Json.str "s3cret") ∷ []

abbrev empty_store : MemoryStore
empty_store = record { store = []; issued = 0 }

create_connection_clean_example :
    let r =
      create_connection classifier memory_resolver providers 100 2 1 " telegram" "bot" payload []
        none [] empty_store in
    ((c : Connection) × (r.0 ≡ ok c) × (r.1 ≡ c ∷ []) × IsCleanConnection classifier providers 1 c)
    ⊎ ((e : CreateError) × (r.0 ≡ err e) × (r.1 ≡ []))
create_connection_clean_example =
    create_connection_clean classifier memory_resolver providers 100 2 1 " telegram" "bot" payload
      [] none [] empty_store

abbrev world : SecretWorld
world = record {
  is_space = is_blank;
  getenv = λ _. none;
  file =
      λ _. record { is_symlink = false; is_inside = true; is_file = true; size = 0; text = none };
}

blank-IsAsciiFree : IsAsciiFree is_blank
blank-IsAsciiFree c low high = ground (arith, low)

distinct : HasDistinctNames classifier payload
unfolding strip strip_end drop_while
distinct = ((refl, tt), (tt, tt))

abbrev held : Dict String × Dict Json
held = (
  ("bot_token", "secretref://mem/1/connection:bot/bot_token/1") ∷ [],
  secrets_metadata (classify_payload classifier payload none (some "telegram")),
)

abbrev made : Connection
made =
    pending_connection classifier 100 2 1 "telegram" "bot" none
      (("bot_username", Json.str "bot") ∷ []) held

is_made :
    (create_connection classifier memory_resolver providers 100 2 1 " telegram" "bot" payload []
      none [] empty_store).0
    ≡ ok made
unfolding create_connection require_registered_provider is_registered get lookup strip strip_end
    drop_while classify_payload classify_entries classify_entry add_secret contains looks_like_url
    has_scheme after_word insert persist_secrets persist_each submit_refs add_connection decimal
    digits_from digit any
is_made = refl

create-resolve_secret_example :
    let r =
      create_connection classifier memory_resolver providers 100 2 1 " telegram" "bot" payload []
        none [] empty_store in
    All
      (λ e.
        IsFree classifier [] (clean classifier e.0)
        → CanRead classifier world blank-IsAsciiFree made r.2 e)
      payload
create-resolve_secret_example =
    create-resolve_secret classifier world blank-IsAsciiFree providers 100 2 1 "bot" payload [] none
      [] " telegram" empty_store made tt distinct is_made
