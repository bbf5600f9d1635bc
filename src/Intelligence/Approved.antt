-- ===== src/Intelligence/Approved.antt =====
-- What of a classifier's result survives the binding to the catalogue.
use threatforge.Common.{
  ℕ, zero, suc, ◌≤◌, String, ◌≡◌, refl, sym, ap, ◌≢◌, ◌∙◌, false, none, some, List, [], ◌∷◌, inl,
  inr, ◌⊎◌, arith, All, Among, length, str_eq, eq_iff, take_text, Bool-cases, Option-cases,
}
use threatforge.Models.{Dict, lookup, insert, lookup-insert}
use threatforge.Intelligence.{
  Target, CatalogueTarget, AnalysisResult, find_approved, copied_target, first_of, approved_terms,
  bound_terms, bind_approved_target,
}

find_approved-Among :
    (ref : String) (targets : List CatalogueTarget) (t : CatalogueTarget)
    → find_approved ref targets ≡ some t
    → Among t targets × (t.target.ref ≡ ref)
unfolding find_approved
find_approved-Among ref [] t found = absurd (ground (arith, found))
find_approved-Among ref (x ∷ targets) t found = elim (Bool-cases (str_eq x.target.ref ref)) [
  | inl hit ↦
      let same : t ≡ x = ground (arith, found, hit) in
      (inl same, ap (λ y. y.target.ref) same ∙ (eq_iff x.target.ref ref).0 hit)
  | inr miss ↦
      let rest = find_approved-Among ref targets t (ground (arith, found, miss)) in
      (inr rest.0, rest.1)
]

find_approved-Absent :
    (ref : String) (targets : List CatalogueTarget) (t : CatalogueTarget)
    → find_approved ref targets ≡ none
    → Among t targets
    → t.target.ref ≢ ref
unfolding find_approved
find_approved-Absent ref [] t absent among = absurd among
find_approved-Absent ref (x ∷ targets) t absent (inl same) = λ equal.
    let hit = (eq_iff x.target.ref ref).1 (sym (ap (λ y. y.target.ref) same) ∙ equal) in
    absurd (ground (arith, absent, hit))
find_approved-Absent ref (x ∷ targets) t absent (inr among) =
    find_approved-Absent ref targets t (ground (arith, absent)) among

-- A term of the list, cut to the width of 120.
abbrev pub IsTermOf : List String → String → Type 0
IsTermOf terms t = (u : String) × Among u terms × (t ≡ take_text 120 u)

module _ (casefold : String → String) where
  approved-IsTermOf :
      (terms : List String) (d : Dict String) (k v : String)
      → lookup k (approved_terms casefold terms d) ≡ some v
      → IsTermOf terms v ⊎ (lookup k d ≡ some v)
  unfolding approved_terms
  approved-IsTermOf [] d k v found = inr found
  approved-IsTermOf (t ∷ terms) d k v found =
      elim (approved-IsTermOf terms (insert (casefold t) (take_text 120 t) d) k v found) [
        | inl (u, among, same) ↦ inl (u, inr among, same)
        | inr inserted ↦ elim (Bool-cases (str_eq (casefold t) k)) [
          | inl hit ↦ inl (
            t,
            inl refl,
            ground (arith, hit, inserted, lookup-insert (casefold t) k (take_text 120 t) d),
          )
          | inr miss ↦
              inr (ground (arith, miss, inserted, lookup-insert (casefold t) k (take_text 120 t) d))
        ]
      ]

  bound-IsTermOf :
      (terms matched : List String)
      → All (IsTermOf terms) (bound_terms casefold (approved_terms casefold terms []) matched)
  unfolding bound_terms lookup
  bound-IsTermOf terms [] = tt
  bound-IsTermOf terms (m ∷ matched) =
      elim (Option-cases (lookup (casefold m) (approved_terms casefold terms []))) [
        | inl absent ↦ rw (absent) (bound-IsTermOf terms matched)
        | inr (v, found) ↦ rw (found) (elim (approved-IsTermOf terms [] (casefold m) v found) [
          | inl term ↦ (term, bound-IsTermOf terms matched)
          | inr never ↦ absurd (ground (arith, never))
        ])
      ]

All-first_of :
    (P : String → Type 0) (n : ℕ) (xs : List String)
    → All P xs
    → All P (first_of n xs) × (length (first_of n xs) ≤ n)
All-first_of P zero xs h = (tt, omega arith)
All-first_of P (suc n) [] h = (tt, omega arith)
All-first_of P (suc n) (x ∷ xs) h =
    let rest = All-first_of P n xs h.1 in ((h.0, rest.0), omega (arith, rest.1))

-- What a binding makes of a result that names a target: nothing, only if no entry of the catalogue
-- has its reference.
abbrev pub Approved : List CatalogueTarget → Target → AnalysisResult → Type 0
Approved targets named r =
    (((t : CatalogueTarget) → Among t targets → t.target.ref ≢ named.ref)
      × (r.matched_target ≡ none)
      × (r.create_finding ≡ false)
      × (r.create_case ≡ false)
      × (r.matched_target_terms ≡ []))
    ⊎ ((t : CatalogueTarget) × Among t targets
        × (t.target.ref ≡ named.ref)
        × (r.matched_target ≡ some (copied_target t.target))
        × All (IsTermOf t.terms) r.matched_target_terms
        × (length r.matched_target_terms ≤ 20))

-- A result that names a target is bound to a target of the catalogue with that reference: its labels
-- and its database ids are the catalogue's, and its terms are at most twenty of the target's. Only if
-- no entry of the catalogue has the reference does the result name none, and then nothing is promoted
-- from it.
pub bind_approved_target-Approved :
    (casefold : String → String) (r : AnalysisResult) (targets : List CatalogueTarget)
    (named : Target)
    → r.matched_target ≡ some named
    → Approved targets named (bind_approved_target casefold r targets)
unfolding bind_approved_target
bind_approved_target-Approved casefold r targets named h =
    elim (Option-cases (find_approved named.ref targets)) [
      | inl absent ↦ rw (h) (
          rw (absent)
            (inl (λ t. find_approved-Absent named.ref targets t absent, refl, refl, refl, refl)))
      | inr (t, found) ↦
          let at = find_approved-Among named.ref targets t found in
          let terms =
            All-first_of (IsTermOf t.terms) 20
              (bound_terms casefold (approved_terms casefold t.terms []) r.matched_target_terms)
              (bound-IsTermOf casefold t.terms r.matched_target_terms) in
          rw (h) (rw (found) (inr (t, at.0, at.1, refl, terms.0, terms.1)))
    ]
