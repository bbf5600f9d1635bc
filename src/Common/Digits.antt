-- ===== src/Common/Digits.antt =====
-- Two numbers with one decimal text are equal, and a decimal text holds digits only.
use Prim.Native.Nat.{ℕ, zero, suc, ◌+◌, ◌*◌, ◌/◌, ◌%◌, ◌≤◌, ◌<◌, ◌-◌}
use Prim.Native.Char.{code}
use Prim.Native.String.{String}
use mathlib.Core.Path.{◌≡◌, refl, sym, ap, ◌∙◌}
use mathlib.Core.Logic.{inl, inr}
use native.Mathlib.Omega.{arith}
use threatforge.Common.Tests.{ltb, Bool-cases}
use threatforge.Common.Decimal.{decimal, digits_from, digit}

pub code-digit : (d : ℕ) → d < 10 → code (digit d) ≡ d + 48
unfolding digit
code-digit zero h = refl
code-digit (suc zero) h = refl
code-digit (suc (suc zero)) h = refl
code-digit (suc (suc (suc zero))) h = refl
code-digit (suc (suc (suc (suc zero)))) h = refl
code-digit (suc (suc (suc (suc (suc zero))))) h = refl
code-digit (suc (suc (suc (suc (suc (suc zero)))))) h = refl
code-digit (suc (suc (suc (suc (suc (suc (suc zero))))))) h = refl
code-digit (suc (suc (suc (suc (suc (suc (suc (suc zero)))))))) h = refl
code-digit (suc (suc (suc (suc (suc (suc (suc (suc (suc zero))))))))) h = refl
code-digit (suc (suc (suc (suc (suc (suc (suc (suc (suc (suc d)))))))))) h =
    absurd (omega (arith, h))

-- The number that a text of digits continues from `n`.
abbrev value_from : ℕ → String → ℕ
value_from n String.[] = n
value_from n (String.◌∷◌ c s) = value_from (n * 10 + (code c - 48)) s

value_from-digits :
    (fuel n : ℕ) (text : String)
    → n < fuel
    → value_from 0 (digits_from fuel n text) ≡ value_from n text
unfolding digits_from
value_from-digits zero n text h = absurd (omega (arith, h))
value_from-digits (suc fuel) n text h = ground (
  arith,
  h,
  code-digit (n % 10),
  value_from-digits fuel (n / 10) (String.◌∷◌ (digit (n % 10)) text),
)

pub decimal_injective : (m n : ℕ) → decimal m ≡ decimal n → m ≡ n
unfolding decimal
decimal_injective m n same =
    sym (value_from-digits (suc m) m "" (omega arith))
    ∙ ap (value_from 0) same
    ∙ value_from-digits (suc n) n "" (omega arith)

-- Every character is a digit.
abbrev pub IsDigits : String → Type 0
IsDigits String.[] = Unit
IsDigits (String.◌∷◌ c s) = (48 ≤ code c) × (code c ≤ 57) × IsDigits s

digits_from-IsDigits :
    (fuel n : ℕ) (text : String) → IsDigits text → IsDigits (digits_from fuel n text)
unfolding digits_from
digits_from-IsDigits zero n text h = h
digits_from-IsDigits (suc fuel) n text h =
    let low = code-digit (n % 10) (omega arith) in
    let one : IsDigits (String.◌∷◌ (digit (n % 10)) text) =
      (omega (arith, low), omega (arith, low), h) in
    elim (Bool-cases (ltb n 10)) [
      | inl small ↦ rw (small) one
      | inr more ↦
          rw (more) (digits_from-IsDigits fuel (n / 10) (String.◌∷◌ (digit (n % 10)) text) one)
    ]

pub decimal-IsDigits : (n : ℕ) → IsDigits (decimal n)
unfolding decimal
decimal-IsDigits n = digits_from-IsDigits (suc n) n "" tt
