-- ===== src/Outbox/Payload.antt =====
-- `assert_payload_clean` of app/collection/outbox.py. A payload is a JSON object; `lower` is the
-- string method of that name.
use threatforge.Common.{
  String, ◌≡◌, ◌↔◌, refl, sym, inl, inr, Among, eq_iff, Bool-cases, Result-cases, Bool, true, false,
  not, ◌||◌, List, [], ◌∷◌, Result, ok, err, arith, any, All, str_eq, if◌then◌else◌,
}
use threatforge.Models.{Json, Items, Dict}

pub data PayloadError : Type 0 where
  delivery_state_keys unapproved_keys : PayloadError
  not_rendered nested_data : String → PayloadError

abbrev pub forbidden_keys : List String
forbidden_keys =
    "status" ∷ "attempts" ∷ "next_attempt_at" ∷ "delivered_at" ∷ "error_code" ∷ "delivery_state"
    ∷ []

abbrev pub allowed_keys : List String
allowed_keys =
    "finding_ref" ∷ "severity" ∷ "redacted_title" ∷ "redacted_summary" ∷ "asset_ref" ∷ "category"
    ∷ "confidence" ∷ "ioc_summary" ∷ "occurred_at" ∷ "source_ref" ∷ []

-- `k in keys`
unfoldable pub contains : List String → String → Bool
contains [] k = false
contains (j ∷ keys) k = str_eq j k || contains keys k

abbrev is_nested : Json → Bool
is_nested (Json.arr xs) = true
is_nested (Json.obj fs) = true
is_nested _ = false

any_nested : Items → Bool
any_nested Items.nil = false
any_nested (Items.cons x xs) = is_nested x || any_nested xs

-- The check of one value, which raises with its key.
unfoldable pub check_value : String → Json → Result PayloadError (Unit {0})
unfolding any_nested
check_value key (Json.obj fs) = err (not_rendered key)
check_value key (Json.arr xs) = if any_nested xs then err (nested_data key) else ok tt
check_value key _ = ok tt

unfoldable pub check_values : Dict Json → Result PayloadError (Unit {0})
check_values [] = ok tt
check_values ((k, v) ∷ payload) =
    let rest = check_values payload in elim (check_value k v) [ ok _ ↦ rest | err e ↦ err e ]

-- The ten keys of the contract, after lowering.
abbrev pub IsApprovedKey : String → Type 0
IsApprovedKey k = Among k (
    "finding_ref" ∷ "severity" ∷ "redacted_title" ∷ "redacted_summary" ∷ "asset_ref" ∷ "category"
    ∷ "confidence" ∷ "ioc_summary" ∷ "occurred_at" ∷ "source_ref" ∷ [])

-- The columns in which the outbox keeps the state of a delivery.
abbrev pub IsDeliveryKey : String → Type 0
IsDeliveryKey k = Among k (
    "status" ∷ "attempts" ∷ "next_attempt_at" ∷ "delivered_at" ∷ "error_code" ∷ "delivery_state"
    ∷ [])

-- A number, a text, a Boolean or null.
abbrev pub IsScalar : Json → Type 0
IsScalar (Json.arr xs) = ⊥
IsScalar (Json.obj fs) = ⊥
IsScalar _ = Unit

abbrev pub AllScalar : Items → Type 0
AllScalar Items.nil = Unit
AllScalar (Items.cons x xs) = IsScalar x × AllScalar xs

-- A scalar or a list of scalars.
abbrev pub IsFlat : Json → Type 0
IsFlat (Json.arr xs) = AllScalar xs
IsFlat (Json.obj fs) = ⊥
IsFlat _ = Unit

contains_iff : (keys : List String) (k : String) → (contains keys k ≡ true) ↔ Among k keys
unfolding contains
contains_iff [] k = (λ h. absurd (ground arith), λ h. absurd h)
contains_iff (j ∷ keys) k =
    let rest = contains_iff keys k in
    let same = eq_iff j k in
    (
      λ h. elim (Bool-cases (str_eq j k)) [
        | inl hit ↦ inl (sym (same.0 hit))
        | inr miss ↦ inr (rest.0 (ground (arith, h, miss)))
      ],
      λ h. elim h [
        | inl equal ↦ ground (arith, same.1 (sym equal))
        | inr member ↦ ground (arith, rest.1 member)
      ],
    )

IsScalar-iff : (v : Json) → (is_nested v ≡ false) ↔ IsScalar v
IsScalar-iff (Json.arr xs) = (λ h. absurd (ground arith), λ h. absurd h)
IsScalar-iff (Json.obj fs) = (λ h. absurd (ground arith), λ h. absurd h)
IsScalar-iff _ = (λ h. tt, λ h. refl)

AllScalar-iff : (xs : Items) → (any_nested xs ≡ false) ↔ AllScalar xs
unfolding any_nested
AllScalar-iff Items.nil = (λ h. tt, λ h. refl)
AllScalar-iff (Items.cons x xs) =
    let one = IsScalar-iff x in
    let rest = AllScalar-iff xs in
    (
      λ h. (one.0 (ground (arith, h)), rest.0 (ground (arith, h))),
      λ h. ground (arith, one.1 h.0, rest.1 h.1),
    )

IsFlat-iff : (k : String) (v : Json) → (check_value k v ≡ ok tt) ↔ IsFlat v
unfolding check_value
IsFlat-iff k (Json.arr xs) =
    let rest = AllScalar-iff xs in (λ h. rest.0 (ground (arith, h)), λ h. ground (arith, rest.1 h))
IsFlat-iff k (Json.obj fs) = (λ h. absurd (ground arith), λ h. absurd h)
IsFlat-iff k _ = (λ h. tt, λ h. refl)

module _ (lower : String → String) where
  abbrev pub is_forbidden : String × Json → Bool
  is_forbidden e = contains forbidden_keys (lower e.0)

  abbrev pub is_unknown : String × Json → Bool
  is_unknown e = not (contains allowed_keys (lower e.0))

  unfoldable pub assert_payload_clean : Dict Json → Result PayloadError (Unit {0})
  assert_payload_clean payload =
      if any is_forbidden payload
      then err delivery_state_keys
      else if any is_unknown payload
      then err unapproved_keys
      else check_values payload

  -- An entry that may be delivered: an approved key, which no delivery column has, and a value
  -- that is a scalar or a list of scalars.
  abbrev pub IsClean : String × Json → Type 0
  IsClean e = IsApprovedKey (lower e.0) × (¬ IsDeliveryKey (lower e.0)) × IsFlat e.1

  forbidden_absent : (e : String × Json) → is_forbidden e ≡ false → ¬ IsDeliveryKey (lower e.0)
  forbidden_absent e h =
      λ member. absurd (ground (arith, h, (contains_iff forbidden_keys (lower e.0)).1 member))

  absent_forbidden : (e : String × Json) → (¬ IsDeliveryKey (lower e.0)) → is_forbidden e ≡ false
  absent_forbidden e never = elim (Bool-cases (is_forbidden e)) [
    | inl hit ↦ absurd (never ((contains_iff forbidden_keys (lower e.0)).0 hit))
    | inr miss ↦ miss
  ]

  unknown_iff : (e : String × Json) → (is_unknown e ≡ false) ↔ IsApprovedKey (lower e.0)
  unknown_iff e =
      let known = contains_iff allowed_keys (lower e.0) in
      (λ h. known.0 (ground (arith, h)), λ h. ground (arith, known.1 h))

  IsClean-of_checks :
      (payload : Dict Json)
      → any is_forbidden payload ≡ false
      → any is_unknown payload ≡ false
      → check_values payload ≡ ok tt
      → All IsClean payload
  unfolding any check_values
  IsClean-of_checks [] f u h = tt
  IsClean-of_checks ((k, v) ∷ payload) f u h = elim (Result-cases (check_value k v)) [
    | inl (_, good) ↦ (
      (
        (unknown_iff (k, v)).0 (ground (arith, u)),
        forbidden_absent (k, v) (ground (arith, f)),
        (IsFlat-iff k v).0 good,
      ),
      IsClean-of_checks payload (ground (arith, f)) (ground (arith, u)) (ground (arith, h, good)),
    )
    | inr (e, bad) ↦ absurd (ground (arith, h, bad))
  ]

  checks_of_clean :
      (payload : Dict Json)
      → All IsClean payload
      → (any is_forbidden payload ≡ false)
        × (any is_unknown payload ≡ false)
        × (check_values payload ≡ ok tt)
  unfolding any check_values
  checks_of_clean [] h = (refl, refl, refl)
  checks_of_clean ((k, v) ∷ payload) h =
      let (f, u, c) = checks_of_clean payload h.1 in
      let known = (unknown_iff (k, v)).1 h.0.0 in
      let other = absent_forbidden (k, v) h.0.1 in
      let flat = (IsFlat-iff k v).1 h.0.2 in (rw (other) f, rw (known) u, ground (arith, flat, c))

  -- A payload is accepted exactly if every key, lowered, is one of the ten of the contract and none
  -- the name of a delivery column, and every value is a scalar or a list whose items are scalars.
  pub accepted_iff :
      (payload : Dict Json) → (assert_payload_clean payload ≡ ok tt) ↔ All IsClean payload
  unfolding assert_payload_clean
  accepted_iff payload = (
    (λ h. IsClean-of_checks payload (ground arith) (ground arith) (ground arith)),
    (λ h. let (f, u, c) = checks_of_clean payload h in rw (f, u) c),
  )
