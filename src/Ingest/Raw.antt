-- ===== src/Ingest/Raw.antt =====
-- What app/collection/ingest.py reads of a raw update: `_extract_cursor`, `_extract_text`,
-- `_raw_date` and `_parse_occurred_at`. A raw update is a JSON object.
use Prim.Native.Char.{code}
use threatforge.Common.{
  ℕ, ◌+◌, ◌-◌, ◌*◌, String, Bool, true, false, ◌&&◌, Option, none, some, List, [], ◌∷◌, leb, str_eq,
  if◌then◌else◌,
}
use threatforge.Models.{Time, Json, Fields, Dict, lookup, text_of}

-- `d.get(k)` on a value that is an object.
unfoldable pub get_field : String → Fields → Option Json
get_field k Fields.end = none
get_field k (Fields.field j v fs) = if str_eq j k then some v else get_field k fs

-- `None` for a missing key and for a null.
abbrev pub present : Option Json → Option Json
present none = none
present (some Json.null) = none
present (some v) = some v

abbrev pub text_value : Option Json → Option String
text_value (some (Json.str s)) = some s
text_value _ = none

abbrev first_of_two {ℓ} : {A : Type ℓ} → Option A → Option A → Option A
first_of_two (some a) b = some a
first_of_two none b = b

first_present : List String → Dict Json → Option Json
first_present [] raw = none
first_present (k ∷ keys) raw = first_of_two (present (lookup k raw)) (first_present keys raw)

abbrev map_text : (Json → String) → Option Json → Option String
map_text repr none = none
map_text repr (some v) = some (text_of repr v)

unfoldable pub extract_cursor : (Json → String) → Dict Json → Option String
unfolding first_present
extract_cursor repr raw =
    map_text repr (first_present ("update_id" ∷ "cursor" ∷ "offset" ∷ "id" ∷ []) raw)

-- A field of `raw["message"]`, if that is an object.
abbrev message_field : String → Option Json → Option Json
message_field k (some (Json.obj fs)) = get_field k fs
message_field k _ = none

unfoldable pub extract_text : Dict Json → Option String
extract_text raw =
    first_of_two (text_value (lookup "text" raw))
      (text_value (message_field "text" (lookup "message" raw)))

-- A missing date and a null one are the same to the parser below.
unfoldable pub raw_date : Dict Json → Option Json
raw_date raw =
    first_of_two (present (message_field "date" (lookup "message" raw))) (lookup "date" raw)

unfoldable pub all_digits : String → Bool
all_digits String.[] = true
all_digits (String.◌∷◌ c s) = (leb b'0' (code c) && leb (code c) b'9') && all_digits s

unfoldable pub number_from : ℕ → String → ℕ
number_from n String.[] = n
number_from n (String.◌∷◌ c s) = number_from (n * 10 + (code c - b'0')) s

-- `from_timestamp` and `from_iso` are the constructors of `datetime`, which give `None` here where
-- they raise; an empty text counts as no date.
module _ (from_timestamp : ℕ → Option Time) (from_iso : String → Option Time)
    (repr : Json → String) where
  abbrev parse_text : String → Option Time
  parse_text s =
      if str_eq s ""
      then none
      else if all_digits s
      then from_timestamp (number_from 0 s)
      else from_iso s

  -- A Boolean is an integer to Python, so that it is a timestamp too.
  unfoldable pub parse_occurred_at : Option Json → Option Time
  parse_occurred_at none = none
  parse_occurred_at (some Json.null) = none
  parse_occurred_at (some (Json.bool true)) = from_timestamp 1
  parse_occurred_at (some (Json.bool false)) = from_timestamp 0
  parse_occurred_at (some (Json.num n)) = from_timestamp n
  parse_occurred_at (some (Json.str s)) = parse_text s
  parse_occurred_at (some v) = from_iso (repr v)
