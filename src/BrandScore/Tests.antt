-- ===== src/BrandScore/Tests.antt =====
-- The score of two domains, and the theorems at them.
use threatforge.Common.{◌≡◌, refl, true, false, not, ◌&&◌, ◌||◌, none, some, leb, any}
use threatforge.BrandScore.{
  Evidence, Verdict, low, starts_with, contains_text, similarity_factors, lure_factors, age_factors,
  cert_factors, factors_of, is_threat, score_finding,
}
use threatforge.BrandScore.Threat.{within, threat_iff}

-- A parked domain, registered four days ago.
abbrev fresh : Evidence
fresh = record {
  resolves = true;
  mx = false;
  age_days = some 4;
  cert_age_days = none;
  urlhaus_listed = false;
  parked = true;
}

parked_run : (score_finding "acme-login.com" 95 fresh).verdict ≡ low
unfolding score_finding factors_of similarity_factors lure_factors age_factors cert_factors
    contains_text starts_with any
parked_run = refl

mail_run :
    (score_finding "acme-login.com" 95 (record fresh { mx = true })).verdict ≡ Verdict.malicious
unfolding score_finding factors_of similarity_factors lure_factors age_factors cert_factors
    contains_text starts_with any
mail_run = refl

threat_iff_example :
    is_threat (score_finding "acme-login.com" 95 fresh).verdict
    ≡ leb 45 (score_finding "acme-login.com" 95 fresh).score
      && ((false || (within 30 (some 4) || (within 7 none || false)))
          && (not true || (false || false)))
threat_iff_example = threat_iff "acme-login.com" 95 fresh
