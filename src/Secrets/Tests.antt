-- ===== src/Secrets/Tests.antt =====
-- Runs of the classification and of the references, and the theorems at concrete payloads.
use threatforge.Common.{
  ℕ, String, ◌≡◌, refl, Bool, ◌&&◌, Option, none, some, [], ◌∷◌, ok, err, leb, ◌==◌, any, decimal,
  digits_from, digit,
}
use threatforge.Models.{Json, Dict, insert}
use threatforge.Outbox.{contains}
use threatforge.Verify.{after_prefix, is_token}
use threatforge.Secrets.{
  Classifier, invalid_file, strip, strip_end, drop_while, starts, all_text, has_scheme, after_word,
  looks_like_url, occurs, has_bot_token, carries_token, webhook_url_is_secret, classify_payload,
  classify_entries, classify_entry, add_secret, validate_opaque_ref, is_file_name,
}
use threatforge.Secrets.Clean.{HasDistinctNames}
use threatforge.Secrets.Plain.{NamesOne, validated_names}

abbrev is_blank : ℕ → Bool
is_blank c = c == 32

abbrev classifier : Classifier
classifier = record {
  unicode = record {
    is_space = is_blank;
    is_digit = λ c. leb b'0' c && leb c b'9';
    lower = λ t. t;
  };
  urlsplit =
      λ t. some (record { username = none; password = none; path = "/bot123:abc"; query = "" });
  sha256 = λ t. t;
  repr = λ _. "";
}

abbrev payload : Dict Json
payload =
    ("bot_username", Json.str "bot")
    ∷ ("bot_token", Json.str "s3cret")
    ∷ ("api_base_url", Json.str "https://api/bot123:abc")
    ∷ ("other", Json.num 7)
    ∷ []

abbrev telegram : Option String
telegram = some "telegram"

-- Only the first entry is stored.
stored :
    (classify_payload classifier payload none telegram).config_json
    ≡ ("bot_username", Json.str "bot") ∷ []
unfolding classify_payload classify_entries classify_entry add_secret contains strip strip_end
    drop_while insert looks_like_url has_scheme after_word after_prefix webhook_url_is_secret
    carries_token occurs has_bot_token starts any is_token
stored = refl

values :
    (classify_payload classifier payload none telegram).secret_values
    ≡ ("bot_token", "s3cret") ∷ ("api_base_url", "https://api/bot123:abc") ∷ ("other", "7") ∷ []
unfolding classify_payload classify_entries classify_entry add_secret contains strip strip_end
    drop_while insert looks_like_url has_scheme after_word after_prefix webhook_url_is_secret
    carries_token occurs has_bot_token starts any is_token decimal digits_from digit
values = refl

distinct : HasDistinctNames classifier payload
unfolding strip strip_end drop_while
distinct = ((refl, (refl, (refl, tt))), ((refl, (refl, tt)), ((refl, tt), (tt, tt))))

abbrev submitted : String
submitted = " secretref://file/bot-token "

abbrev accepted : String
accepted = "secretref://file/bot-token"

is_accepted : validate_opaque_ref is_blank submitted ≡ ok accepted
unfolding validate_opaque_ref strip strip_end drop_while after_prefix is_file_name starts all_text
is_accepted = refl

traversal_refused : validate_opaque_ref is_blank "secretref://file/../passwd" ≡ err invalid_file
unfolding validate_opaque_ref strip strip_end drop_while after_prefix is_file_name starts all_text
traversal_refused = refl

validated_names_example : (accepted ≡ strip is_blank submitted) × NamesOne accepted
validated_names_example = validated_names is_blank submitted accepted is_accepted
