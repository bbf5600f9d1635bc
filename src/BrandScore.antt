-- ===== src/BrandScore.antt =====
-- app/brand/scoring.py: the score of a domain that resembles a brand. Ages are in days and not
-- negative; the sentence that explains a factor to the reader is left out.
pub mod Threat
mod Tests
use Prim.Native.Char.{code}
use threatforge.Common.{
  ℕ, ◌+◌, String, Bool, true, false, not, ◌&&◌, ◌||◌, Option, none, some, List, [], ◌∷◌, ◌++◌, min,
  leb, ◌==◌, str_eq, any, find?, if◌then◌else◌,
}

pub record Factor : Type 0 where
  pub name : String
  pub points : ℕ
  pub source : String

pub record Evidence : Type 0 where
  pub resolves : Bool
  pub mx : Bool
  pub age_days : Option ℕ
  pub cert_age_days : Option ℕ
  pub urlhaus_listed : Bool
  pub parked : Bool

pub data Verdict : Type 0 where
  info low suspicious malicious : Verdict

pub record Score : Type 0 where
  pub score : ℕ
  pub verdict : Verdict
  pub factors : List Factor

abbrev pub factor : String → ℕ → String → Factor
factor name points source = record { name = name; points = points; source = source }

-- The text starts with the other one.
unfoldable pub starts_with : String → String → Bool
starts_with String.[] s = true
starts_with (String.◌∷◌ c p) String.[] = false
starts_with (String.◌∷◌ c p) (String.◌∷◌ d s) = (code c == code d) && starts_with p s

-- `l in domain`
unfoldable pub contains_text : String → String → Bool
contains_text p String.[] = starts_with p String.[]
contains_text p (String.◌∷◌ c s) = starts_with p (String.◌∷◌ c s) || contains_text p s

-- `LURES` of app/brand/typosquat.py
abbrev pub lures : List String
lures =
    "secure" ∷ "support" ∷ "service" ∷ "acesso" ∷ "login" ∷ "customer" ∷ "promocao" ∷ "premio"
    ∷ "sorteio" ∷ "app" ∷ "central" ∷ "oficial" ∷ "br" ∷ "online" ∷ "account" ∷ "cadastro"
    ∷ "verificar" ∷ "pagamento" ∷ "2via" ∷ "payment slip" ∷ "pix" ∷ "ajuda" ∷ []

unfoldable pub similarity_factors : ℕ → List Factor
similarity_factors similarity =
    if leb 90 similarity
    then factor "high_similarity" 20 "ThreatForge" ∷ []
    else if leb 75 similarity
    then factor "similarity" 10 "ThreatForge" ∷ []
    else if leb 60 similarity
    then factor "similarity" 5 "ThreatForge" ∷ []
    else []

abbrev pub lures_hit : Bool → List Factor
lures_hit hit = if hit then factor "lure_term" 8 "ThreatForge" ∷ [] else []

unfoldable pub lure_factors : String → List Factor
lure_factors domain = lures_hit (any (λ l. contains_text l domain) lures)

unfoldable pub age_factors : Option ℕ → List Factor
age_factors none = []
age_factors (some age) =
    if leb age 7
    then factor "very_new_domain" 25 "RDAP" ∷ []
    else if leb age 30
    then factor "new_domain" 15 "RDAP" ∷ []
    else if leb age 90
    then factor "recent_domain" 6 "RDAP" ∷ []
    else []

unfoldable pub cert_factors : Option ℕ → List Factor
cert_factors none = []
cert_factors (some age) = if leb age 7 then factor "fresh_cert" 12 "crt.sh" ∷ [] else []

-- The factors in the order in which the code adds them, but for the parked one.
unfoldable pub factors_of : String → ℕ → Evidence → List Factor
factors_of domain similarity e =
    similarity_factors similarity
    ++ (lure_factors domain
        ++ ((if e.resolves then factor "resolves" 6 "DNS" ∷ [] else [])
            ++ ((if e.mx then factor "mx_record" 22 "DNS" ∷ [] else [])
                ++ (age_factors e.age_days
                    ++ (cert_factors e.cert_age_days
                        ++ (if e.urlhaus_listed
                            then factor "urlhaus" 45 "abuse.ch URLhaus" ∷ []
                            else []))))))

-- The names that the code adds to `strong`, with the factor of that name.
abbrev strong_names : List String
strong_names = "mx_record" ∷ "very_new_domain" ∷ "new_domain" ∷ "fresh_cert" ∷ "urlhaus" ∷ []

abbrev pub is_strong_factor : Factor → Bool
is_strong_factor f = any (str_eq f.name) strong_names

abbrev pub is_active_factor : Factor → Bool
is_active_factor f = str_eq f.name "mx_record" || str_eq f.name "urlhaus"

abbrev pub points_of : List Factor → ℕ
points_of [] = 0
points_of (f ∷ fs) = f.points + points_of fs

-- `VERDICTS`
abbrev pub base_verdict : ℕ → Verdict
base_verdict score =
    if leb 70 score
    then malicious
    else if leb 45 score
    then suspicious
    else if leb 15 score
    then low
    else info

abbrev pub is_threat : Verdict → Bool
is_threat suspicious = true
is_threat malicious = true
is_threat _ = false

-- At most "low".
abbrev pub demoted : Verdict → Verdict
demoted v = if is_threat v then low else v

abbrev pub verdict_of : ℕ → Bool → Bool → Bool → Verdict
verdict_of score strong parked active =
    let v = if strong then base_verdict score else demoted (base_verdict score) in
    if parked && not active then demoted v else v

unfoldable pub score_finding : String → ℕ → Evidence → Score
score_finding domain similarity e =
    let fs = factors_of domain similarity e in
    let score = min 100 (points_of fs) in
    record {
      score = score;
      verdict = verdict_of score (any is_strong_factor fs) e.parked (any is_active_factor fs);
      factors = if e.parked then fs ++ (factor "parked" 0 "DNS/NS" ∷ []) else fs;
    }
