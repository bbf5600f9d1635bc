-- ===== src/Features/Tests.antt =====
-- Runs of the feature gate, and the theorem at a license.
use threatforge.Common.{String, ◌≡◌, ◌↔◌, refl, true, false, Option, some, [], ◌∷◌, any, select}
use threatforge.Outbox.{contains}
use threatforge.Registry.{sorted, insert_text}
use threatforge.Features.{
  EnterpriseStatus, collection_telegram, analysis_telegram, feeds_darkweb, is_enabled, entitlements,
  resolve_license, enterprise_feature_set, allowed_features,
}
use threatforge.Features.Exact.{Granted, ListsKey, is_enterprise, enabled_iff}

abbrev same : String → String
same t = t

-- A commercial bundle.
abbrev bundle : Option EnterpriseStatus
bundle = some (record { available = true; valid = true; features = "advanced_connectors" ∷ [] })

bundle_unlocks :
    allowed_features same "enterprise" bundle
    ≡ "enrichment.premium" ∷ "feeds.darkweb" ∷ "feeds.enrichment" ∷ "feeds.realtime"
      ∷ "integration.generic" ∷ []
unfolding allowed_features entitlements resolve_license enterprise_feature_set any select contains
    sorted insert_text
bundle_unlocks = refl

-- It does not unlock the messaging provider.
bundle_locks : is_enabled same "enterprise" bundle collection_telegram ≡ false
unfolding is_enabled entitlements resolve_license enterprise_feature_set any select contains
bundle_locks = refl

enabled_iff_example :
    ((is_enabled same "enterprise" bundle feeds_darkweb ≡ true)
      ↔ ((is_enterprise same "enterprise" ≡ true) × Granted bundle feeds_darkweb))
    × ((is_enabled same "enterprise" bundle collection_telegram ≡ true)
        ↔ ((is_enterprise same "enterprise" ≡ true) × ListsKey bundle "collection.telegram"))
    × ((is_enabled same "enterprise" bundle analysis_telegram ≡ true)
        ↔ ((is_enterprise same "enterprise" ≡ true) × ListsKey bundle "analysis.telegram"))
enabled_iff_example = enabled_iff same "enterprise" bundle feeds_darkweb
