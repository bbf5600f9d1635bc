-- ===== src/Outbox/KeyApart.antt =====
-- The dedup key tells tenants, findings and channels apart.
use Prim.Native.String.{◌++◌}
use Prim.Native.Char.{Char, code}
use text.Mathlib.TextLemmas.{nil-append, cons-append, append_cancel_left}
use threatforge.Common.{
  ℕ, String, ◌≡◌, refl, sym, ap, ◌∙◌, arith, decimal, decimal_injective, IsDigits, decimal-IsDigits,
}
use threatforge.Outbox.{compute_dedup_key, join_bar}

abbrev rest_of : String → String
rest_of String.[] = String.[]
rest_of (String.◌∷◌ c s) = s

abbrev first_of_text : Char → String → Char
first_of_text z String.[] = z
first_of_text z (String.◌∷◌ c s) = c

abbrev first_code : String → ℕ
first_code String.[] = 0
first_code (String.◌∷◌ c s) = code c

bar_first : (x : String) → "|" ++ x ≡ String.◌∷◌ "|" x
bar_first x = cons-append "|" "" x ∙ ap (String.◌∷◌ "|") (nil-append x)

empty_bar : (x : String) → "" ++ ("|" ++ x) ≡ String.◌∷◌ "|" x
empty_bar x = nil-append ("|" ++ x) ∙ bar_first x

-- A run of digits ends at the bar.
bar_split :
    (a b x y : String)
    → IsDigits a
    → IsDigits b
    → a ++ ("|" ++ x) ≡ b ++ ("|" ++ y)
    → (a ≡ b) × (x ≡ y)
bar_split String.[] String.[] x y da db h = (refl, ap rest_of (sym (empty_bar x) ∙ h ∙ empty_bar y))
bar_split String.[] (String.◌∷◌ d b) x y da db h =
    let codes : 124 ≡ code d = ap first_code (sym (empty_bar x) ∙ h ∙ cons-append d b ("|" ++ y)) in
    absurd (omega (arith, codes, db.1))
bar_split (String.◌∷◌ c a) String.[] x y da db h =
    let codes : code c ≡ 124 = ap first_code (sym (cons-append c a ("|" ++ x)) ∙ h ∙ empty_bar y) in
    absurd (omega (arith, codes, da.1))
bar_split (String.◌∷◌ c a) (String.◌∷◌ d b) x y da db h =
    let whole = sym (cons-append c a ("|" ++ x)) ∙ h ∙ cons-append d b ("|" ++ y) in
    let first : c ≡ d = ap (first_of_text c) whole in
    let rest = bar_split a b x y da.2 db.2 (ap rest_of whole) in
    (ap (λ z. String.◌∷◌ z a) first ∙ ap (String.◌∷◌ d) rest.0, rest.1)

number_split :
    (m n : ℕ) (x y : String) → decimal m ++ ("|" ++ x) ≡ decimal n ++ ("|" ++ y) → (m ≡ n) × (x ≡ y)
number_split m n x y h =
    let split = bar_split (decimal m) (decimal n) x y (decimal-IsDigits m) (decimal-IsDigits n) h in
    (decimal_injective m n split.0, split.1)

abbrev from_finding : ℕ → ℕ → String → String → String
from_finding finding channel template version =
    decimal finding ++ ("|" ++ (decimal channel ++ ("|" ++ (template ++ ("|" ++ version)))))

-- One key, one tenant, finding and channel, where the digest does not collide.
pub key_apart :
    (sha256 : String → String) (tenant finding channel tenant' finding' channel' : ℕ)
    (template version template' version' : String)
    → ((a b : String) → sha256 a ≡ sha256 b → a ≡ b)
    → compute_dedup_key sha256 tenant finding channel template version
      ≡ compute_dedup_key sha256 tenant' finding' channel' template' version'
    → (tenant ≡ tenant') × (finding ≡ finding') × (channel ≡ channel')
unfolding compute_dedup_key join_bar
key_apart sha256 tenant finding channel tenant' finding' channel' template version template'
      version' apart same =
    let x = from_finding finding channel template version in
    let y = from_finding finding' channel' template' version' in
    let left : String = "v1" ++ ("|" ++ (decimal tenant ++ ("|" ++ x))) in
    let right : String = "v1" ++ ("|" ++ (decimal tenant' ++ ("|" ++ y))) in
    let texts =
      append_cancel_left "|" (decimal tenant ++ ("|" ++ x)) (decimal tenant' ++ ("|" ++ y)) (
        append_cancel_left "v1" ("|" ++ (decimal tenant ++ ("|" ++ x)))
          ("|" ++ (decimal tenant' ++ ("|" ++ y))) (apart left right same)) in
    let tenants = number_split tenant tenant' x y texts in
    let findings =
      number_split finding finding' (decimal channel ++ ("|" ++ (template ++ ("|" ++ version))))
        (decimal channel' ++ ("|" ++ (template' ++ ("|" ++ version')))) tenants.1 in
    let channels =
      number_split channel channel' (template ++ ("|" ++ version)) (template' ++ ("|" ++ version'))
        findings.1 in
    (tenants.0, findings.0, channels.0)
