-- ===== src/Secrets/Urls.antt =====
-- The URLs that carry a token: `looks_like_url` and `webhook_url_is_secret` of
-- app/collection/secrets.py, with their regular expressions matched by hand. `Unicode` are the
-- interpreter's tables, and `urlsplit` is the one of urllib.parse.
use Prim.Native.Char.{Char, code}
use threatforge.Common.{
  ℕ, zero, suc, ◌+◌, String, Bool, true, false, not, ◌&&◌, ◌||◌, Option, none, some, List, [], ◌∷◌,
  any, str_eq, ◌==◌, is_some, if◌then◌else◌,
}
use threatforge.Models.{Json}
use threatforge.Verify.{after_prefix, is_token}

pub record Unicode : Type 0 where
  -- `str.isspace` and `\d`, by code point
  pub is_space : ℕ → Bool
  pub is_digit : ℕ → Bool
  pub lower : String → String

-- What is read of the parts of a URL.
pub record UrlParts : Type 0 where
  pub username : Option String
  pub password : Option String
  pub path : String
  pub query : String

-- The text without the characters at its front.
unfoldable pub drop_while : (ℕ → Bool) → String → String
drop_while p String.[] = String.[]
drop_while p (String.◌∷◌ c s) =
    let rest = drop_while p s in if p (code c) then rest else String.◌∷◌ c s

unfoldable pub starts : (ℕ → Bool) → String → Bool
starts p String.[] = false
starts p (String.◌∷◌ c s) = p (code c)

abbrev pub cons_unless_blank : (ℕ → Bool) → Char → String → String
cons_unless_blank space c String.[] = if space (code c) then String.[] else String.◌∷◌ c String.[]
cons_unless_blank space c (String.◌∷◌ d s) = String.◌∷◌ c (String.◌∷◌ d s)

unfoldable pub strip_end : (ℕ → Bool) → String → String
strip_end space String.[] = String.[]
strip_end space (String.◌∷◌ c s) = cons_unless_blank space c (strip_end space s)

-- `str.strip`
unfoldable pub strip : (ℕ → Bool) → String → String
unfolding strip_end
strip space s = strip_end space (drop_while space s)

-- A lower-case letter, in any case: the long s (U+017F) is one of `s`.
abbrev pub same_letter : ℕ → ℕ → Bool
same_letter p c = (c == p) || ((c + 32 == p) || ((p == b's') && (c == 383)))

-- The rest of the text after a word of lower-case letters, in any case.
unfoldable pub after_word : String → String → Option String
after_word String.[] s = some s
after_word (String.◌∷◌ p ps) String.[] = none
after_word (String.◌∷◌ p ps) (String.◌∷◌ c s) =
    let rest = after_word ps s in if same_letter (code p) (code c) then rest else none

abbrev has_prefix : String → Option String → Bool
has_prefix p none = false
has_prefix p (some s) = is_some (after_prefix p s)

abbrev after_http : Option String → Bool
after_http none = false
after_http (some s) = has_prefix "://" (some s) || has_prefix "://" (after_word "s" s)

-- ^\s*https?://
unfoldable pub has_scheme : (ℕ → Bool) → String → Bool
unfolding after_word
has_scheme space s = after_http (after_word "http" (drop_while space s))

unfoldable pub looks_like_url : (ℕ → Bool) → Json → Bool
looks_like_url space (Json.str s) = has_scheme space s
looks_like_url space _ = false

-- `needle in hay`
unfoldable pub occurs : String → String → Bool
occurs needle String.[] = is_some (after_prefix needle String.[])
occurs needle (String.◌∷◌ c s) =
    let later = occurs needle s in is_some (after_prefix needle (String.◌∷◌ c s)) || later

abbrev pub tokenish_query_keys : List String
tokenish_query_keys =
    "token=" ∷ "key=" ∷ "secret=" ∷ "access_token=" ∷ "hub.verify_token=" ∷ "auth=" ∷ "signature="
    ∷ "sig=" ∷ "apikey=" ∷ "api_key=" ∷ []

-- [A-Za-z0-9_-] without regard to case: of the letters beyond ASCII, four fold into it.
abbrev pub is_folded_token : ℕ → Bool
is_folded_token c = is_token c || ((c == 304) || ((c == 305) || ((c == 383) || (c == 8490))))

abbrev colon_token : Option String → Bool
colon_token none = false
colon_token (some s) = starts is_folded_token s

abbrev digits_then_token : (ℕ → Bool) → Option String → Bool
digits_then_token digit none = false
digits_then_token digit (some s) =
    starts digit s && colon_token (after_prefix ":" (drop_while digit s))

abbrev after_slash : (ℕ → Bool) → Option String → Bool
after_slash digit none = false
after_slash digit (some s) = digits_then_token digit (after_word "bot" s)

-- /bot\d+:[A-Za-z0-9_-]+ anywhere in the path, in any case
unfoldable pub has_bot_token : (ℕ → Bool) → String → Bool
has_bot_token digit String.[] = false
has_bot_token digit (String.◌∷◌ c s) =
    let later = has_bot_token digit s in
    after_slash digit (after_prefix "/" (String.◌∷◌ c s)) || later

abbrev at_end : String → Bool
at_end s = str_eq s "" || str_eq s "\n"

-- ^[A-Za-z0-9_-]{n,}$, where `$` also stands before a last line feed
unfoldable pub is_long_token : ℕ → String → Bool
is_long_token zero s = at_end (drop_while is_token s)
is_long_token (suc n) String.[] = false
is_long_token (suc n) (String.◌∷◌ c s) = let rest = is_long_token n s in is_token (code c) && rest

abbrev cons_first : Char → List String → List String
cons_first c [] = String.◌∷◌ c String.[] ∷ []
cons_first c (s ∷ more) = String.◌∷◌ c s ∷ more

-- `path.split("/")`
unfoldable pub segments : String → List String
segments String.[] = "" ∷ []
segments (String.◌∷◌ c s) =
    let rest = segments s in if code c == b'/' then "" ∷ rest else cons_first c rest

abbrev pub is_filled : Option String → Bool
is_filled none = false
is_filled (some t) = not (str_eq t "")

unfoldable pub carries_token : Unicode → UrlParts → Bool
carries_token u parts =
    (is_filled parts.username || is_filled parts.password)
    || (any (λ k. occurs k (u.lower parts.query)) tokenish_query_keys
        || (has_bot_token u.is_digit parts.path || any (is_long_token 16) (segments parts.path)))

abbrev split_token : Unicode → Option UrlParts → Bool
split_token u none = true
split_token u (some parts) = carries_token u parts

-- `urlsplit` returns none where it raises.
unfoldable pub webhook_url_is_secret : Unicode → (String → Option UrlParts) → String → Bool
unfolding carries_token
webhook_url_is_secret u urlsplit url =
    not (str_eq url "") && split_token u (urlsplit (strip u.is_space url))
