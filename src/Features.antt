-- ===== src/Features.antt =====
-- app/features.py: which paid features a license unlocks. The status that app/enterprise_adapter.py
-- reports is an argument, none where it raises; `lower` is the string method.
pub mod Exact
mod Tests
use threatforge.Common.{
  String, Bool, true, false, not, ◌&&◌, ◌||◌, Option, none, some, List, [], ◌∷◌, Result, ok, err,
  map, any, select, str_eq, if◌then◌else◌,
}
use threatforge.Outbox.{contains}
use threatforge.Registry.{sorted}

pub data Feature : Type 0 where
  export_pdf integration_misp integration_opencti integration_generic enrichment_premium : Feature
  feeds_darkweb feeds_realtime feeds_enrichment collection_telegram analysis_telegram : Feature

abbrev pub key_of_feature : Feature → String
key_of_feature export_pdf = "export.pdf"
key_of_feature integration_misp = "integration.misp"
key_of_feature integration_opencti = "integration.opencti"
key_of_feature integration_generic = "integration.generic"
key_of_feature enrichment_premium = "enrichment.premium"
key_of_feature feeds_darkweb = "feeds.darkweb"
key_of_feature feeds_realtime = "feeds.realtime"
key_of_feature feeds_enrichment = "feeds.enrichment"
key_of_feature collection_telegram = "collection.telegram"
key_of_feature analysis_telegram = "analysis.telegram"

abbrev pub same_feature : Feature → Feature → Bool
same_feature f g = str_eq (key_of_feature f) (key_of_feature g)

abbrev pub premium : List Feature
premium =
    export_pdf ∷ integration_misp ∷ integration_opencti ∷ integration_generic ∷ enrichment_premium
    ∷ feeds_darkweb ∷ feeds_realtime ∷ feeds_enrichment ∷ collection_telegram ∷ analysis_telegram
    ∷ []

-- `_ENTERPRISE_ALIASES`
abbrev pub enterprise_aliases : Feature → List String
enterprise_aliases export_pdf = "export.pdf" ∷ "premium_pdf_reports" ∷ []
enterprise_aliases integration_misp = "integration.misp" ∷ "enterprise_integrations" ∷ []
enterprise_aliases integration_opencti = "integration.opencti" ∷ "enterprise_integrations" ∷ []
enterprise_aliases integration_generic =
    "integration.generic" ∷ "enterprise_integrations" ∷ "advanced_connectors" ∷ []
enterprise_aliases enrichment_premium = "enrichment.premium" ∷ "advanced_connectors" ∷ []
enterprise_aliases feeds_darkweb = "feeds.darkweb" ∷ "advanced_connectors" ∷ []
enterprise_aliases feeds_realtime =
    "feeds.realtime" ∷ "advanced_connectors" ∷ "scheduled_reports" ∷ []
enterprise_aliases feeds_enrichment = "feeds.enrichment" ∷ "advanced_connectors" ∷ []
enterprise_aliases collection_telegram = "collection.telegram" ∷ []
enterprise_aliases analysis_telegram = "analysis.telegram" ∷ []

pub record EnterpriseStatus : Type 0 where
  pub available : Bool
  pub valid : Bool
  pub features : List String

-- `_enterprise_feature_set`
unfoldable pub enterprise_feature_set : Option EnterpriseStatus → List String
enterprise_feature_set none = []
enterprise_feature_set (some s) = if not s.available || not s.valid then [] else s.features

-- An alias of the feature is granted.
abbrev pub is_granted : List String → Feature → Bool
is_granted granted f = any (contains granted) (enterprise_aliases f)

abbrev pub license_of : List String → List Feature
license_of [] = []
license_of (k ∷ granted) = select (is_granted (k ∷ granted)) premium

-- `_resolve_license`
unfoldable pub resolve_license : Option EnterpriseStatus → List Feature
unfolding enterprise_feature_set
resolve_license status = license_of (enterprise_feature_set status)

module _ (lower : String → String) (edition : String) (status : Option EnterpriseStatus) where
  unfoldable pub entitlements : List Feature
  unfolding resolve_license
  entitlements =
      if not (str_eq (lower (if str_eq edition "" then "community" else edition)) "enterprise")
      then []
      else resolve_license status

  unfoldable pub is_enabled : Feature → Bool
  unfolding entitlements
  is_enabled f = not (any (same_feature f) premium) || any (same_feature f) entitlements

  -- `EnterpriseFeatureRequired` is raised with the feature.
  unfoldable pub ensure_enabled : Feature → Result Feature (Unit {0})
  unfolding is_enabled
  ensure_enabled f = if not (is_enabled f) then err f else ok tt

  unfoldable pub allowed_features : List String
  unfolding entitlements
  allowed_features =
      sorted (map key_of_feature (select (λ f. any (same_feature f) entitlements) premium))

  unfoldable pub blocked_features : List String
  unfolding entitlements
  blocked_features =
      sorted (map key_of_feature (select (λ f. not (any (same_feature f) entitlements)) premium))
