-- ===== src/Typosquat.antt =====
-- app/brand/typosquat.py: the domains that resemble a brand's. A set of texts is a list in which a
-- text may stand twice until it is sorted. `lower` is the string method, and `space` tells white space.
pub mod Candidates
mod Tests
use Prim.Native.Char.{Char, code}
use threatforge.Common.{
  ℕ, suc, ◌+◌, String, Bool, true, false, not, ◌&&◌, ◌||◌, Option, none, some, List, [], ◌∷◌, ◌++◌,
  map, select, any, leb, length, str_eq, text_length, text_append, concat, ◌==◌, if◌then◌else◌,
}
use threatforge.Verify.{after_prefix}
use threatforge.Secrets.{strip, starts, all_text}
use threatforge.Registry.{sorted}
use threatforge.BrandScore.{lures}

abbrev pub tlds : List String
tlds =
    "com" ∷ "com.br" ∷ "net" ∷ "net.br" ∷ "org" ∷ "app" ∷ "online" ∷ "site" ∷ "shop" ∷ "store"
    ∷ "info" ∷ "xyz" ∷ "top" ∷ "live" ∷ "vip" ∷ "digital" ∷ "com.co" ∷ "br.com" ∷ "sbs" ∷ "icu"
    ∷ "cfd" ∷ []

abbrev pub homoglyphs : List (String × List String)
homoglyphs =
    ("o", "0" ∷ [])
    ∷ ("0", "o" ∷ [])
    ∷ ("i", "1" ∷ "l" ∷ [])
    ∷ ("l", "1" ∷ "i" ∷ [])
    ∷ ("e", "3" ∷ [])
    ∷ ("a", "4" ∷ "@" ∷ [])
    ∷ ("s", "5" ∷ "$" ∷ [])
    ∷ ("b", "8" ∷ [])
    ∷ ("g", "9" ∷ [])
    ∷ ("t", "7" ∷ [])
    ∷ ("rn", "m" ∷ [])
    ∷ ("m", "rn" ∷ [])
    ∷ ("cl", "d" ∷ [])
    ∷ ("vv", "w" ∷ [])
    ∷ ("w", "vv" ∷ [])
    ∷ []

abbrev pub qwerty : List (String × String)
qwerty =
    ("q", "wa")
    ∷ ("w", "qes")
    ∷ ("e", "wrd")
    ∷ ("r", "etf")
    ∷ ("t", "ryg")
    ∷ ("y", "tuh")
    ∷ ("u", "yij")
    ∷ ("i", "uok")
    ∷ ("o", "ipl")
    ∷ ("p", "ol")
    ∷ ("a", "qsz")
    ∷ ("s", "awdx")
    ∷ ("d", "sefc")
    ∷ ("f", "drgv")
    ∷ ("g", "fthb")
    ∷ ("h", "gyjn")
    ∷ ("j", "hukm")
    ∷ ("k", "jil")
    ∷ ("l", "kop")
    ∷ ("z", "asx")
    ∷ ("x", "zsdc")
    ∷ ("c", "xdfv")
    ∷ ("v", "cfgb")
    ∷ ("b", "vghn")
    ∷ ("n", "bhjm")
    ∷ ("m", "njk")
    ∷ []

abbrev cons_text : Char → Option String → Option String
cons_text c none = none
cons_text c (some s) = some (String.◌∷◌ c s)

-- `s[:-len(suffix)]`, if `s` ends with the suffix.
unfoldable pub before_suffix : String → String → Option String
before_suffix suffix String.[] = if str_eq suffix "" then some "" else none
before_suffix suffix (String.◌∷◌ c s) =
    let rest = before_suffix suffix s in
    if str_eq (String.◌∷◌ c s) suffix then some "" else cons_text c rest

-- The longer texts first.
insert_longer : String → List String → List String
insert_longer t [] = t ∷ []
insert_longer t (u ∷ texts) =
    let rest = insert_longer t texts in
    if leb (text_length u) (text_length t) then t ∷ u ∷ texts else u ∷ rest

longest_first : List String → List String
longest_first [] = []
longest_first (t ∷ texts) = insert_longer t (longest_first texts)

abbrev cons_before : Char → Option (String × String) → Option (String × String)
cons_before c none = none
cons_before c (some (a, b)) = some (String.◌∷◌ c a, b)

-- `s.split(".", 1)`, where there is a dot.
unfoldable pub at_dot : String → Option (String × String)
at_dot String.[] = none
at_dot (String.◌∷◌ c s) =
    let rest = at_dot s in if code c == b'.' then some ("", s) else cons_before c rest

abbrev first_dot : String → Option (String × String) → String × String
first_dot domain none = (domain, "com")
first_dot domain (some parts) = parts

unfoldable pub split_at : String → List String → String × String
split_at domain [] = first_dot domain (at_dot domain)
split_at domain (tld ∷ more) =
    let later = split_at domain more in
    elim (before_suffix (concat ("." ∷ tld ∷ [])) domain) [
      | some label ↦ (label, tld)
      | none ↦ later
    ]

unfoldable pub split_domain : (ℕ → Bool) → (String → String) → String → String × String
unfolding longest_first insert_longer
split_domain space lower domain = split_at (strip space (lower domain)) (longest_first tlds)

abbrev is_alphanumeric : ℕ → Bool
is_alphanumeric c = (leb b'a' c && leb c b'z') || (leb b'0' c && leb c b'9')

abbrev is_label_character : ℕ → Bool
is_label_character c = is_alphanumeric c || c == b'-'

unfoldable pub ends : (ℕ → Bool) → String → Bool
ends p String.[] = false
ends p (String.◌∷◌ c String.[]) = p (code c)
ends p (String.◌∷◌ c (String.◌∷◌ d s)) = ends p (String.◌∷◌ d s)

-- `_valid_label`: [a-z0-9][a-z0-9\-]{0,61}[a-z0-9]
unfoldable pub valid_label : String → Bool
valid_label label =
    (starts is_alphanumeric label && ends is_alphanumeric label)
    && (all_text is_label_character label
        && (leb 2 (text_length label) && leb (text_length label) 63))

-- The replacements of one sequence at the front of a text, after what stands before it.
abbrev replaced : String → List String → Option String → List String
replaced before repls none = []
replaced before repls (some after) = map (λ r. concat (before ∷ r ∷ after ∷ [])) repls

unfoldable pub homoglyph_swaps : String → String → List (String × List String) → List String
homoglyph_swaps before s [] = []
homoglyph_swaps before s ((src, repls) ∷ more) =
    replaced before repls (after_prefix src s) ++ homoglyph_swaps before s more

unfoldable pub each_character : String → String → String → List String
each_character before after String.[] = []
each_character before after (String.◌∷◌ a adjacent) =
    text_append before (String.◌∷◌ a after) ∷ each_character before after adjacent

unfoldable pub adjacent_swaps : String → Char → String → List (String × String) → List String
adjacent_swaps before c after [] = []
adjacent_swaps before c after ((key, adjacent) ∷ more) =
    let later = adjacent_swaps before c after more in
    if str_eq (String.◌∷◌ c String.[]) key then each_character before after adjacent else later

abbrev transposed : String → Char → String → List String
transposed before c String.[] = []
transposed before c (String.◌∷◌ d after) =
    text_append before (String.◌∷◌ d (String.◌∷◌ c after)) ∷ []

-- What the loops of `_char_swaps` add at one position: adjacent keys, the omission, the doubling and
-- the transposition of its character.
abbrev swaps_at : String → Char → String → List String
swaps_at before c after =
    adjacent_swaps before c after qwerty
    ++ (text_append before after
        ∷ text_append before (String.◌∷◌ c (String.◌∷◌ c after))
        ∷ transposed before c after)

-- `_char_swaps`, position by position.
unfoldable pub char_swaps : String → String → List String
unfolding homoglyph_swaps adjacent_swaps each_character
char_swaps before String.[] = []
char_swaps before (String.◌∷◌ c s) =
    homoglyph_swaps before (String.◌∷◌ c s) homoglyphs
    ++ (swaps_at before c s ++ char_swaps (text_append before (String.◌∷◌ c String.[])) s)

unfoldable pub with_lures : String → List String → List String
with_lures label [] = []
with_lures label (lure ∷ more) =
    concat (label ∷ lure ∷ [])
    ∷ concat (lure ∷ label ∷ [])
    ∷ concat (label ∷ "-" ∷ lure ∷ [])
    ∷ concat (lure ∷ "-" ∷ label ∷ [])
    ∷ with_lures label more

abbrev pub is_candidate : String → String → Bool
is_candidate label l = valid_label l && not (str_eq l label)

-- A set of texts, from a list.
unfoldable pub as_set : List String → List String
as_set [] = []
as_set (t ∷ texts) = let rest = as_set texts in if any (str_eq t) rest then rest else t ∷ rest

unfoldable pub labels_of : String → List String
unfolding char_swaps with_lures
labels_of label = sorted (
    as_set (
      select (is_candidate label)
        (char_swaps "" label ++ (with_lures label lures ++ (concat (label ∷ "-br" ∷ []) ∷ [])))))

unfoldable pub names_of : List String → List String → List String
names_of chosen [] = []
names_of chosen (label ∷ labels) =
    map (λ t. concat (label ∷ "." ∷ t ∷ [])) chosen ++ names_of chosen labels

-- The two loops over the names, which stop when there are enough.
unfoldable pub collect : ℕ → List String → List String → List String
collect max_results [] candidates = candidates
collect max_results (name ∷ names) candidates =
    let more = if any (str_eq name) candidates then candidates else candidates ++ (name ∷ []) in
    let rest = collect max_results names more in
    if leb max_results (length more) then more else rest

abbrev pub priority_tlds : String → List String
priority_tlds tld = tld ∷ "com" ∷ "com.br" ∷ "app" ∷ "online" ∷ "shop" ∷ []

abbrev pub generate_for : ℕ → String → String → List String
generate_for max_results label tld =
    if str_eq label ""
    then []
    else collect max_results (names_of (priority_tlds tld) (labels_of label)) []

unfoldable pub generate : (ℕ → Bool) → (String → String) → String → ℕ → List String
generate space lower domain max_results =
    let parts = split_domain space lower domain in generate_for max_results parts.0 parts.1
