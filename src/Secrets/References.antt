-- ===== src/Secrets/References.antt =====
-- `validate_opaque_ref` of app/collection/secrets.py: the references that a caller may submit.
use Prim.Native.Char.{code}
use threatforge.Common.{
  ℕ, String, Bool, true, ◌&&◌, ◌||◌, Option, none, some, Result, ok, err, leb, ◌==◌, is_some,
  text_length, if◌then◌else◌,
}
use threatforge.Verify.{after_prefix}
use threatforge.Secrets.Urls.{strip, starts}

pub data ReferenceError : Type 0 where
  invalid_environment invalid_file unsupported : ReferenceError

unfoldable pub all_text : (ℕ → Bool) → String → Bool
all_text p String.[] = true
all_text p (String.◌∷◌ c s) = let rest = all_text p s in p (code c) && rest

abbrev is_upper : ℕ → Bool
is_upper c = leb b'A' c && leb c b'Z'

abbrev is_ascii_digit : ℕ → Bool
is_ascii_digit c = leb b'0' c && leb c b'9'

abbrev pub is_alphanumeric : ℕ → Bool
is_alphanumeric c = is_upper c || ((leb b'a' c && leb c b'z') || is_ascii_digit c)

abbrev pub is_env_character : ℕ → Bool
is_env_character c = is_upper c || (is_ascii_digit c || c == b'_')

abbrev pub is_file_character : ℕ → Bool
is_file_character c = is_alphanumeric c || (c == b'.' || (c == b'_' || c == b'-'))

abbrev pub env_prefix : String
env_prefix = "secretref://env/"

abbrev pub file_prefix : String
file_prefix = "secretref://file/"

-- [A-Z][A-Z0-9_]{2,127}, in the namespace of the application
unfoldable pub is_env_name : String → Bool
is_env_name name =
    (starts is_upper name
      && (all_text is_env_character name
          && (leb 3 (text_length name) && leb (text_length name) 128)))
    && is_some (after_prefix "THREATFORGE_" name)

-- [A-Za-z0-9][A-Za-z0-9._-]{1,126}
unfoldable pub is_file_name : String → Bool
is_file_name name =
    starts is_alphanumeric name
    && (all_text is_file_character name && (leb 2 (text_length name) && leb (text_length name) 127))

abbrev pub checked_file : String → Option String → Result ReferenceError String
checked_file value none = err unsupported
checked_file value (some name) = if is_file_name name then ok value else err invalid_file

abbrev pub checked_ref : String → Option String → Result ReferenceError String
checked_ref value none = checked_file value (after_prefix file_prefix value)
checked_ref value (some name) = if is_env_name name then ok value else err invalid_environment

unfoldable pub validate_opaque_ref : (ℕ → Bool) → String → Result ReferenceError String
validate_opaque_ref space ref =
    checked_ref (strip space ref) (after_prefix env_prefix (strip space ref))
