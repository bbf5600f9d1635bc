-- ===== src/Verify.antt =====
-- app/collection/verify.py: TF-VERIFY control messages. A text is walked by its characters, as the
-- regular expression \bTF-VERIFY-([A-Za-z0-9_-]{8,128})\b is matched. `wide` tells the letters and
-- digits beyond ASCII, which the interpreter's Unicode table knows; `sha256` is the hexadecimal digest.
pub mod Nonce
mod Tests
use Prim.Native.Char.{Char, code}
use threatforge.Common.{
  ℕ, zero, suc, ◌+◌, ◌-◌, String, Bool, true, false, not, ◌&&◌, ◌||◌, Option, none, some, ltb, leb,
  ◌==◌, is_some, take_text, if◌then◌else◌,
}

is_ascii_word : ℕ → Bool
is_ascii_word c =
    (leb b'a' c && leb c b'z')
    || ((leb b'A' c && leb c b'Z') || ((leb b'0' c && leb c b'9') || c == b'_'))

-- A character of [A-Za-z0-9_-].
unfoldable pub is_token : ℕ → Bool
unfolding is_ascii_word
is_token c = is_ascii_word c || c == b'-'

module _ (wide : ℕ → Bool) where
  -- \w
  unfoldable pub is_word : ℕ → Bool
  unfolding is_ascii_word
  is_word c = is_ascii_word c || (leb 128 c && wide c)

  -- The character at the front of a text is a word character; there is none at its end.
  unfoldable pub starts_word : String → Bool
  starts_word String.[] = false
  starts_word (String.◌∷◌ c s) = is_word (code c)

-- The rest of the text after a literal prefix.
unfoldable pub after_prefix : String → String → Option String
after_prefix String.[] s = some s
after_prefix (String.◌∷◌ p ps) String.[] = none
after_prefix (String.◌∷◌ p ps) (String.◌∷◌ c s) =
    let rest = after_prefix ps s in if code p == code c then rest else none

abbrev extend : Char → Option String → Option String → Option String
extend c none here = here
extend c (some n) here = some (String.◌∷◌ c n)

abbrev or_else : Option String → Option String → Option String
or_else (some n) later = some n
or_else none later = later

module _ (wide : ℕ → Bool) where
  -- A word boundary stands between a character (`last` is whether it is a word character) and a text.
  abbrev boundary : Bool → String → Bool
  boundary last s = if last then not (starts_word wide s) else starts_word wide s

  -- The group ends here, if it is long enough and a word boundary follows.
  abbrev ends_here : ℕ → Bool → String → Option String
  ends_here size last s = if leb 8 size && boundary last s then some String.[] else none

  -- The group, from a point where `size` characters of it have been taken and `fuel` more may be.
  -- A longer group is preferred, so a group that ends here is the last resort.
  unfoldable pub group : ℕ → ℕ → Bool → String → Option String
  group zero size last s = ends_here size last s
  group (suc fuel) size last String.[] = ends_here size last String.[]
  group (suc fuel) size last (String.◌∷◌ c s) =
      let longer = group fuel (size + 1) (is_word wide (code c)) s in
      if is_token (code c)
      then extend c longer (ends_here size last (String.◌∷◌ c s))
      else ends_here size last (String.◌∷◌ c s)

  abbrev group_after : Option String → Option String
  group_after none = none
  group_after (some rest) = group 128 0 false rest

  -- A match that begins at the front of the text.
  unfoldable pub match_here : Bool → String → Option String
  match_here last s = if boundary last s then group_after (after_prefix "TF-VERIFY-" s) else none

  -- `_VERIFY_RE.search(text)`, and its group
  unfoldable pub search_from : Bool → String → Option String
  search_from last String.[] = match_here last String.[]
  search_from last (String.◌∷◌ c s) =
      let later = search_from (is_word wide (code c)) s in
      or_else (match_here last (String.◌∷◌ c s)) later

  unfoldable pub parse_verify_nonce : Option String → Option String
  parse_verify_nonce none = none
  parse_verify_nonce (some text) = search_from false text

  unfoldable pub is_control_message : Option String → Bool
  is_control_message text = is_some (parse_verify_nonce text)

unfoldable pub nonce_hash : (String → String) → String → String
nonce_hash sha256 nonce = sha256 nonce
