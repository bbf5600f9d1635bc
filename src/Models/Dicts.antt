-- ===== src/Models/Dicts.antt =====
-- The laws of a dict: what is looked up after an entry has been written or removed.
use threatforge.Common.{
  String, ◌≡◌, refl, false, none, some, [], ◌∷◌, arith, str_eq, eq_iff, inl, inr, ◌∙◌, Bool-cases,
  if◌then◌else◌,
}
use threatforge.Models.Values.{Dict, lookup, insert, without}

module _ {ℓ} {V : Type ℓ} where
  pub lookup-insert_same : (k : String) (v : V) (d : Dict V) → lookup k (insert k v d) ≡ some v
  unfolding lookup insert
  lookup-insert_same k v [] = ground (arith, eq_iff k k)
  lookup-insert_same k v ((j, w) ∷ d) = ground (arith, eq_iff j k, lookup-insert_same k v d)

  pub lookup-insert_other :
      (j k : String) (v : V) (d : Dict V)
      → str_eq j k ≡ false
      → lookup k (insert j v d) ≡ lookup k d
  unfolding lookup insert
  lookup-insert_other j k v [] other = ground (arith, other)
  lookup-insert_other j k v ((i, w) ∷ d) other =
      ground (arith, other, eq_iff i j, eq_iff i k, eq_iff j k, lookup-insert_other j k v d other)

  pub lookup-without_same : (k : String) (d : Dict V) → lookup k (without k d) ≡ none
  unfolding lookup without
  lookup-without_same k [] = refl
  lookup-without_same k ((j, w) ∷ d) = ground (arith, lookup-without_same k d)

  pub lookup-without_other :
      (j k : String) (d : Dict V) → str_eq j k ≡ false → lookup k (without j d) ≡ lookup k d
  unfolding lookup without
  lookup-without_other j k [] other = refl
  lookup-without_other j k ((i, w) ∷ d) other =
      ground (arith, other, eq_iff i j, eq_iff i k, eq_iff j k, lookup-without_other j k d other)

  -- Writing an entry, as every lookup sees it.
  pub lookup-insert :
      (j k : String) (v : V) (d : Dict V)
      → lookup k (insert j v d) ≡ (if str_eq j k then some v else lookup k d)
  lookup-insert j k v d =
      ground (arith, eq_iff j k, lookup-insert_same k v d, lookup-insert_other j k v d)

  pub lookup-without :
      (j k : String) (d : Dict V)
      → lookup k (without j d) ≡ (if str_eq j k then none else lookup k d)
  lookup-without j k d =
      ground (arith, eq_iff j k, lookup-without_same k d, lookup-without_other j k d)

-- No key stands twice in the dict.
abbrev pub HasDistinctKeys {ℓ} : {V : Type ℓ} → Dict V → Type ℓ
HasDistinctKeys [] = Unit
HasDistinctKeys ((k, v) ∷ d) = (lookup k d ≡ none) × HasDistinctKeys d

pub insert-HasDistinctKeys {ℓ} :
    {V : Type ℓ} (k : String) (v : V) (d : Dict V)
    → HasDistinctKeys d
    → HasDistinctKeys (insert k v d)
unfolding insert lookup
insert-HasDistinctKeys k v [] h = (refl, tt)
insert-HasDistinctKeys k v ((j, w) ∷ d) h = elim (Bool-cases (str_eq j k)) [
  | inl same ↦ rw (same) h
  | inr other ↦ rw (other) (
    lookup-insert_other k j v d (ground (arith, other, eq_iff j k, eq_iff k j)) ∙ h.0,
    insert-HasDistinctKeys k v d h.1,
  )
]
