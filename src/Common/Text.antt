-- ===== src/Common/Text.antt =====
-- Text columns: whole texts are compared, and some are cut to a column's width.
use Prim.Native.Nat.{ℕ, zero, suc, ◌≤◌}
use Prim.Native.String.{String}
use mathlib.Core.Path.{◌≡◌, refl, ap}
use mathlib.Core.Bool.{Bool, true, false}
use mathlib.Core.Option.{Option, none, some}
use native.Mathlib.Omega.{arith}
use text.Mathlib.Text.{◌==◌}
use text.Mathlib.TextEquality.{eq_iff}

abbrev pub str_eq : String → String → Bool
str_eq a b = a == b

-- An optional text against a text: `None` differs from every text.
abbrev pub opt_eq : Option String → String → Bool
opt_eq none b = false
opt_eq (some a) b = a == b

-- Python's `s[:n]`, by characters.
unfoldable pub take_text : ℕ → String → String
take_text zero s = String.[]
take_text (suc n) String.[] = String.[]
take_text (suc n) (String.◌∷◌ c s) = String.◌∷◌ c (take_text n s)

abbrev pub text_length : String → ℕ
text_length String.[] = 0
text_length (String.◌∷◌ c s) = suc (text_length s)

pub text_length-take_text : (n : ℕ) (s : String) → text_length (take_text n s) ≤ n
unfolding take_text
text_length-take_text zero s = omega arith
text_length-take_text (suc n) String.[] = omega arith
text_length-take_text (suc n) (String.◌∷◌ c s) = omega (arith, text_length-take_text n s)

pub opt_eq_sound : (o : Option String) (t : String) → opt_eq o t ≡ true → o ≡ some t
opt_eq_sound none t h = cc
opt_eq_sound (some a) t h = ap some ((eq_iff a t).0 h)

pub opt_eq_self : (t : String) → opt_eq (some t) t ≡ true
opt_eq_self t = (eq_iff t t).1 refl
