-- ===== src/BrandScore/Threat.antt =====
-- What a verdict above "low" takes, and that the factors explain the score.
use threatforge.Common.{
  ℕ, ◌+◌, ◌≤◌, String, ◌≡◌, refl, ◌∙◌, Bool, true, false, not, ◌&&◌, ◌||◌, Option, none, some, List,
  [], ◌∷◌, ◌++◌, min, arith, leb, any, if◌then◌else◌,
}
use threatforge.BrandScore.{
  Factor, Evidence, similarity_factors, lure_factors, lures_hit, contains_text, lures, factor,
  age_factors, cert_factors, factors_of, is_strong_factor, is_active_factor, points_of, is_threat,
  verdict_of, score_finding,
}

any-++ : (p : Factor → Bool) (xs ys : List Factor) → any p (xs ++ ys) ≡ any p xs || any p ys
unfolding any
any-++ p [] ys = refl
any-++ p (x ∷ xs) ys = ground (arith, any-++ p xs ys)

points_of-++ : (xs ys : List Factor) → points_of (xs ++ ys) ≡ points_of xs + points_of ys
points_of-++ [] ys = ground arith
points_of-++ (x ∷ xs) ys = omega (arith, points_of-++ xs ys)

-- At most this many days.
abbrev pub within : ℕ → Option ℕ → Bool
within days none = false
within days (some age) = leb age days

strong_weak : (similarity : ℕ) → any is_strong_factor (similarity_factors similarity) ≡ false
unfolding similarity_factors any
strong_weak similarity = ground arith

strong_hit : (hit : Bool) → any is_strong_factor (lures_hit hit) ≡ false
unfolding any
strong_hit true = refl
strong_hit false = refl

active_hit : (hit : Bool) → any is_active_factor (lures_hit hit) ≡ false
unfolding any
active_hit true = refl
active_hit false = refl

strong_lure : (domain : String) → any is_strong_factor (lure_factors domain) ≡ false
unfolding lure_factors
strong_lure domain = strong_hit (any (λ l. contains_text l domain) lures)

active_lure : (domain : String) → any is_active_factor (lure_factors domain) ≡ false
unfolding lure_factors
active_lure domain = active_hit (any (λ l. contains_text l domain) lures)

strong_age : (age : Option ℕ) → any is_strong_factor (age_factors age) ≡ within 30 age
unfolding age_factors any
strong_age none = refl
strong_age (some age) = ground arith

strong_cert : (age : Option ℕ) → any is_strong_factor (cert_factors age) ≡ within 7 age
unfolding cert_factors any
strong_cert none = refl
strong_cert (some age) = ground arith

active_weak : (similarity : ℕ) → any is_active_factor (similarity_factors similarity) ≡ false
unfolding similarity_factors any
active_weak similarity = ground arith

active_age : (age : Option ℕ) → any is_active_factor (age_factors age) ≡ false
unfolding age_factors any
active_age none = refl
active_age (some age) = ground arith

active_cert : (age : Option ℕ) → any is_active_factor (cert_factors age) ≡ false
unfolding cert_factors any
active_cert none = refl
active_cert (some age) = ground arith

threat_verdict :
    (score : ℕ) (strong parked active : Bool)
    → is_threat (verdict_of score strong parked active)
      ≡ leb 45 score && (strong && (not parked || active))
threat_verdict score strong parked active = ground arith

module _ (p : Factor → Bool) (domain : String) (similarity : ℕ) (e : Evidence) where
  any-factors_of :
      any p (factors_of domain similarity e)
      ≡ any p (similarity_factors similarity)
        || (any p (lure_factors domain)
            || (any p (if e.resolves then factor "resolves" 6 "DNS" ∷ [] else [])
                || (any p (if e.mx then factor "mx_record" 22 "DNS" ∷ [] else [])
                    || (any p (age_factors e.age_days)
                        || (any p (cert_factors e.cert_age_days)
                            || any p (
                                if e.urlhaus_listed
                                then factor "urlhaus" 45 "abuse.ch URLhaus" ∷ []
                                else []))))))
  unfolding factors_of
  any-factors_of = simp (any-++) refl

strong_factors :
    (domain : String) (similarity : ℕ) (e : Evidence)
    → any is_strong_factor (factors_of domain similarity e)
      ≡ e.mx || (within 30 e.age_days || (within 7 e.cert_age_days || e.urlhaus_listed))
unfolding any
strong_factors domain similarity e = rw (any-factors_of is_strong_factor domain similarity e) (
    ground (
      arith,
      strong_weak similarity,
      strong_lure domain,
      strong_age e.age_days,
      strong_cert e.cert_age_days,
    ))

active_factors :
    (domain : String) (similarity : ℕ) (e : Evidence)
    → any is_active_factor (factors_of domain similarity e) ≡ e.mx || e.urlhaus_listed
unfolding any
active_factors domain similarity e = rw (any-factors_of is_active_factor domain similarity e) (
    ground (
      arith,
      active_weak similarity,
      active_lure domain,
      active_age e.age_days,
      active_cert e.cert_age_days,
    ))

-- The verdict is above "low" exactly if the score is at least 45 and there is a strong sign: a mail
-- record, a registration of at most 30 days, a certificate of at most 7, or a URLhaus listing; and,
-- for a parked domain, a mail record or a listing.
pub threat_iff :
    (domain : String) (similarity : ℕ) (e : Evidence)
    → is_threat (score_finding domain similarity e).verdict
      ≡ leb 45 (score_finding domain similarity e).score
        && ((e.mx || (within 30 e.age_days || (within 7 e.cert_age_days || e.urlhaus_listed)))
            && (not e.parked || (e.mx || e.urlhaus_listed)))
unfolding score_finding
threat_iff domain similarity e =
    threat_verdict (min 100 (points_of (factors_of domain similarity e)))
      (any is_strong_factor (factors_of domain similarity e)) e.parked
      (any is_active_factor (factors_of domain similarity e))
    ∙ rw (strong_factors domain similarity e, active_factors domain similarity e) refl

-- The factors explain the score: it is the sum of the points of the factors that are returned, cut
-- at 100.
pub score_explained :
    (domain : String) (similarity : ℕ) (e : Evidence)
    → let s = score_finding domain similarity e in
      (s.score ≡ min 100 (points_of s.factors)) × (s.score ≤ 100)
unfolding score_finding
score_explained domain similarity e = (
  ground (arith, points_of-++ (factors_of domain similarity e) (factor "parked" 0 "DNS/NS" ∷ [])),
  omega arith,
)
