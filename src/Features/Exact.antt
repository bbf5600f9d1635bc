-- ===== src/Features/Exact.antt =====
-- What unlocks a feature.
use threatforge.Common.{
  String, ◌≡◌, ◌↔◌, refl, sym, ap, ◌∙◌, Bool, true, false, not, ◌&&◌, ◌||◌, Option, none, some,
  List, [], ◌∷◌, inl, inr, arith, any, select, str_eq, Bool-cases, if◌then◌else◌,
}
use threatforge.Outbox.{contains}
use threatforge.Features.{
  Feature, export_pdf, integration_misp, integration_opencti, integration_generic,
  enrichment_premium, feeds_darkweb, feeds_realtime, feeds_enrichment, collection_telegram,
  analysis_telegram, same_feature, premium, enterprise_aliases, EnterpriseStatus,
  enterprise_feature_set, is_granted, license_of, resolve_license, entitlements, is_enabled,
}

any-select :
    (p q : Feature → Bool) (fs : List Feature) → any p (select q fs) ≡ any (λ f. p f && q f) fs
unfolding any select
any-select p q [] = refl
any-select p q (f ∷ fs) = ground (arith, any-select p q fs)

or_false : (b : Bool) → (b || false) ≡ b
or_false true = refl
or_false false = refl

-- Every feature stands once among the premium ones.
premium_once : (q : Feature → Bool) (f : Feature) → any (λ g. same_feature f g && q g) premium ≡ q f
unfolding any
premium_once q export_pdf = or_false (q export_pdf)
premium_once q integration_misp = or_false (q integration_misp)
premium_once q integration_opencti = or_false (q integration_opencti)
premium_once q integration_generic = or_false (q integration_generic)
premium_once q enrichment_premium = or_false (q enrichment_premium)
premium_once q feeds_darkweb = or_false (q feeds_darkweb)
premium_once q feeds_realtime = or_false (q feeds_realtime)
premium_once q feeds_enrichment = or_false (q feeds_enrichment)
premium_once q collection_telegram = or_false (q collection_telegram)
premium_once q analysis_telegram = or_false (q analysis_telegram)

is_premium : (f : Feature) → any (same_feature f) premium ≡ true
unfolding any
is_premium export_pdf = refl
is_premium integration_misp = refl
is_premium integration_opencti = refl
is_premium integration_generic = refl
is_premium enrichment_premium = refl
is_premium feeds_darkweb = refl
is_premium feeds_realtime = refl
is_premium feeds_enrichment = refl
is_premium collection_telegram = refl
is_premium analysis_telegram = refl

any_nothing : (keys : List String) → any (contains []) keys ≡ false
unfolding any contains
any_nothing [] = refl
any_nothing (k ∷ keys) = any_nothing keys

any-license_of :
    (granted : List String) (f : Feature)
    → any (same_feature f) (license_of granted) ≡ is_granted granted f
unfolding any
any-license_of [] f = sym (any_nothing (enterprise_aliases f))
any-license_of (k ∷ granted) f =
    any-select (same_feature f) (is_granted (k ∷ granted)) premium
    ∙ premium_once (is_granted (k ∷ granted)) f

-- The license that is there grants the feature, by its key or by one of its aliases.
abbrev pub Granted : Option EnterpriseStatus → Feature → Type 0
Granted status f =
    (s : EnterpriseStatus) × (status ≡ some s)
    × (s.available ≡ true)
    × (s.valid ≡ true)
    × (any (contains s.features) (enterprise_aliases f) ≡ true)

abbrev pub is_enterprise : (String → String) → String → Bool
is_enterprise lower edition =
    str_eq (lower (if str_eq edition "" then "community" else edition)) "enterprise"

status_grants :
    (status : Option EnterpriseStatus) (f : Feature)
    → (is_granted (enterprise_feature_set status) f ≡ true) ↔ Granted status f
unfolding enterprise_feature_set
status_grants none f = (
  λ h. absurd (ground (arith, h, any_nothing (enterprise_aliases f))),
  λ h. absurd (ground (arith, h.1)),
)
status_grants (some s) f = elim (Bool-cases (not s.available || not s.valid)) [
  | inl shut ↦ rw (shut) (
    λ h. absurd (ground (arith, h, any_nothing (enterprise_aliases f))),
    λ h.
        let same : s ≡ h.0 = ground (arith, h.1) in
        absurd (ground (arith, shut, ap (λ x. x.available) same, ap (λ x. x.valid) same, h.2, h.3)),
  )
  | inr open_now ↦ rw (open_now) (
    λ h. (s, refl, ground (arith, open_now), ground (arith, open_now), h),
    λ h.
        let same : s ≡ h.0 = ground (arith, h.1) in
        ap (λ x. any (contains x.features) (enterprise_aliases f)) same ∙ h.4,
  )
]

none_enabled : (f : Feature) → any (same_feature f) [] ≡ false
unfolding any
none_enabled f = refl

no_path : false ≡ true → ⊥
no_path h = cc

alias_iff :
    (lower : String → String) (edition : String) (status : Option EnterpriseStatus) (f : Feature)
    → (is_enabled lower edition status f ≡ true)
      ↔ ((is_enterprise lower edition ≡ true) × Granted status f)
unfolding is_enabled entitlements resolve_license
alias_iff lower edition status f =
    let found = any-license_of (enterprise_feature_set status) f in
    let grants = status_grants status f in
    rw (is_premium f) (elim (Bool-cases (is_enterprise lower edition)) [
      | inr other ↦
          rw (other) (λ h. absurd (no_path (sym (none_enabled f) ∙ h)), λ h. absurd (no_path h.0))
      | inl enterprise ↦
          rw (enterprise) (λ h. (refl, grants.0 (sym found ∙ h)), λ h. found ∙ grants.1 h.1)
    ])

-- The license that is there lists the key itself.
abbrev pub ListsKey : Option EnterpriseStatus → String → Type 0
ListsKey status key =
    (s : EnterpriseStatus) × (status ≡ some s)
    × (s.available ≡ true)
    × (s.valid ≡ true)
    × (contains s.features key ≡ true)

collection_by_key :
    (status : Option EnterpriseStatus)
    → Granted status collection_telegram ↔ ListsKey status "collection.telegram"
unfolding any
collection_by_key status =
    (λ h. (h.0, h.1, h.2, h.3, ground (arith, h.4)), λ h. (h.0, h.1, h.2, h.3, ground (arith, h.4)))

analysis_by_key :
    (status : Option EnterpriseStatus)
    → Granted status analysis_telegram ↔ ListsKey status "analysis.telegram"
unfolding any
analysis_by_key status =
    (λ h. (h.0, h.1, h.2, h.3, ground (arith, h.4)), λ h. (h.0, h.1, h.2, h.3, ground (arith, h.4)))

both_iff : {P A B C : Type 0} → P ↔ (A × B) → B ↔ C → P ↔ (A × C)
both_iff h g = (λ p. ((h.0 p).0, g.0 (h.0 p).1), λ q. h.1 (q.0, g.1 q.1))

-- A paid feature is enabled exactly if the edition is the enterprise one and the status of the license
-- could be read, is available and valid, and lists the feature's key or one of its aliases. The two
-- features of the messaging provider are enabled exactly if, under the same conditions, it lists
-- their own keys, "collection.telegram" and "analysis.telegram".
pub enabled_iff :
    (lower : String → String) (edition : String) (status : Option EnterpriseStatus) (f : Feature)
    → ((is_enabled lower edition status f ≡ true)
        ↔ ((is_enterprise lower edition ≡ true) × Granted status f))
      × ((is_enabled lower edition status collection_telegram ≡ true)
          ↔ ((is_enterprise lower edition ≡ true) × ListsKey status "collection.telegram"))
      × ((is_enabled lower edition status analysis_telegram ≡ true)
          ↔ ((is_enterprise lower edition ≡ true) × ListsKey status "analysis.telegram"))
enabled_iff lower edition status f = (
  alias_iff lower edition status f,
  both_iff (alias_iff lower edition status collection_telegram) (collection_by_key status),
  both_iff (alias_iff lower edition status analysis_telegram) (analysis_by_key status),
)
