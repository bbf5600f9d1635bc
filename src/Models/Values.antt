-- ===== src/Models/Values.antt =====
-- The values of the columns: points in time, JSON values, and JSON objects.
use threatforge.Common.{
  ℕ, ◌*◌, String, Bool, Option, none, some, List, [], ◌∷◌, str_eq, true, false, decimal,
  if◌then◌else◌,
}

-- A `datetime`, as the microseconds since `datetime.min` in UTC. A naive value, which the code
-- reads as UTC, is the same number.
abbrev pub Time : Type 0
Time = ℕ

-- `timedelta(seconds=n)`
abbrev pub seconds : ℕ → ℕ
seconds n = n * 1000000

-- What `json` makes of a document.
mutual
  pub data Json : Type 0 where
    null : Json
    bool : Bool → Json
    num : ℕ → Json
    str : String → Json
    arr : Items → Json
    obj : Fields → Json

  pub data Items : Type 0 where
    nil : Items
    cons : Json → Items → Items

  pub data Fields : Type 0 where
    end : Fields
    field : String → Json → Fields → Fields

-- `str(value)`; `repr` is that of a list or an object.
abbrev pub text_of : (Json → String) → Json → String
text_of repr Json.null = "None"
text_of repr (Json.bool true) = "True"
text_of repr (Json.bool false) = "False"
text_of repr (Json.num n) = decimal n
text_of repr (Json.str s) = s
text_of repr v = repr v

-- A Python dict with text keys, in insertion order.
abbrev pub Dict {ℓ} : Type ℓ → Type ℓ
Dict V = List (String × V)

module _ {ℓ} {V : Type ℓ} where
  -- `d.get(k)`
  unfoldable pub lookup : String → Dict V → Option V
  lookup k [] = none
  lookup k ((j, v) ∷ d) = if str_eq j k then some v else lookup k d

  -- `d[k] = v`
  unfoldable pub insert : String → V → Dict V → Dict V
  insert k v [] = (k, v) ∷ []
  insert k v ((j, w) ∷ d) = if str_eq j k then (j, v) ∷ d else (j, w) ∷ insert k v d

  -- `{**d, **e}`: the entries of the second dict are written over the first.
  unfoldable pub merge : Dict V → Dict V → Dict V
  merge d [] = d
  merge d ((k, v) ∷ e) = merge (insert k v d) e

  -- `d.pop(k, None)`
  unfoldable pub without : String → Dict V → Dict V
  without k [] = []
  without k ((j, v) ∷ d) = let rest = without k d in if str_eq j k then rest else (j, v) ∷ rest
