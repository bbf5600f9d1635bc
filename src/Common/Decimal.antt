-- ===== src/Common/Decimal.antt =====
-- `str` of a natural number.
use Prim.Native.Nat.{ℕ, zero, suc, ◌/◌, ◌%◌}
use Prim.Native.String.{String}
use Prim.Native.Char.{Char}
use mathlib.Core.List.{List, [], ◌∷◌}
use threatforge.Common.Tests.{ltb, if◌then◌else◌}

-- The last digit; of a number above nine, a nine.
unfoldable pub digit : ℕ → Char
digit zero = "0"
digit (suc zero) = "1"
digit (suc (suc zero)) = "2"
digit (suc (suc (suc zero))) = "3"
digit (suc (suc (suc (suc zero)))) = "4"
digit (suc (suc (suc (suc (suc zero))))) = "5"
digit (suc (suc (suc (suc (suc (suc zero)))))) = "6"
digit (suc (suc (suc (suc (suc (suc (suc zero))))))) = "7"
digit (suc (suc (suc (suc (suc (suc (suc (suc zero)))))))) = "8"
digit _ = "9"

unfoldable pub digits_from : ℕ → ℕ → String → String
digits_from zero n text = text
digits_from (suc fuel) n text =
    let more = digits_from fuel (n / 10) (String.◌∷◌ (digit (n % 10)) text) in
    if ltb n 10 then String.◌∷◌ (digit (n % 10)) text else more

-- `str(n)`; a number has fewer digits than its successor counts.
unfoldable pub decimal : ℕ → String
unfolding digit digits_from
decimal n = digits_from (suc n) n ""

abbrev pub text_append : String → String → String
text_append String.[] t = t
text_append (String.◌∷◌ c s) t = String.◌∷◌ c (text_append s t)

-- The texts one after the other, as an f-string joins its parts.
abbrev pub concat : List String → String
concat [] = ""
concat (s ∷ parts) = text_append s (concat parts)
