-- ===== src/Typosquat/Candidates.antt =====
-- What the generator returns.
use threatforge.Common.{
  ℕ, ◌≤◌, ◌<◌, max, String, ◌≡◌, ◌≢◌, refl, ◌∙◌, Bool, true, false, List, [], ◌∷◌, ◌++◌, inl, inr,
  arith, All, All-select, All-map, map, select, any, any-append, length, length-append, leb, str_eq,
  eq_iff, concat, Bool-cases,
}
use threatforge.Registry.{sorted, insert_text, text_leb}
use threatforge.BrandScore.{lures}
use threatforge.Typosquat.{
  split_domain, valid_label, is_candidate, as_set, char_swaps, with_lures, labels_of, names_of,
  collect, priority_tlds, generate_for, generate,
}

abbrev pub IsDistinct : List String → Type 0
IsDistinct [] = Unit
IsDistinct (x ∷ xs) = (any (str_eq x) xs ≡ false) × IsDistinct xs

apart_sym : (a b : String) → str_eq a b ≡ false → str_eq b a ≡ false
apart_sym a b h = ground (arith, h, eq_iff a b, eq_iff b a)

append-IsDistinct :
    (name : String) (xs : List String)
    → any (str_eq name) xs ≡ false
    → IsDistinct xs
    → IsDistinct (xs ++ (name ∷ []))
unfolding any
append-IsDistinct name [] new h = (refl, tt)
append-IsDistinct name (x ∷ xs) new h = (
  any-append (str_eq x) xs (name ∷ []) ∙ ground (arith, h.0, new, eq_iff x name, eq_iff name x),
  append-IsDistinct name xs (ground (arith, new)) h.1,
)

All-append : (P : String → Type 0) (xs ys : List String) → All P xs → All P ys → All P (xs ++ ys)
All-append P [] ys h k = k
All-append P (x ∷ xs) ys h k = (h.0, All-append P xs ys h.1 k)

-- The names that are collected: few enough, distinct, and each of the names that are offered.
Collected : (String → Type 0) → ℕ → List String → Type 0
Collected P m names = (length names ≤ max 1 m) × IsDistinct names × All P names

below : (m n : ℕ) → leb m n ≡ false → n < max 1 m
below m n h = ground (arith, h)

collect-Collected :
    (P : String → Type 0) (m : ℕ) (names candidates : List String)
    → All P names
    → length candidates < max 1 m
    → IsDistinct candidates
    → All P candidates
    → Collected P m (collect m names candidates)
unfolding collect Collected
collect-Collected P m [] candidates all few distinct h = (omega (arith, few), distinct, h)
collect-Collected P m (name ∷ names) candidates all few distinct h =
    elim (Bool-cases (any (str_eq name) candidates)) [
      | inl seen ↦ rw (seen) (elim (Bool-cases (leb m (length candidates))) [
        | inl enough ↦ rw (enough) (omega (arith, few), distinct, h)
        | inr more ↦ rw (more) (collect-Collected P m names candidates all.1 few distinct h)
      ])
      | inr fresh ↦ rw (fresh) (
          let longer = candidates ++ (name ∷ []) in
          let size = length-append candidates (name ∷ []) in
          let distinct' = append-IsDistinct name candidates fresh distinct in
          let h' = All-append P candidates (name ∷ []) h (all.0, tt) in
          elim (Bool-cases (leb m (length longer))) [
            | inl enough ↦ rw (enough) (omega (arith, few, size), distinct', h')
            | inr more ↦ rw (more) (
                collect-Collected P m names longer all.1 (below m (length longer) more) distinct'
                  h')
          ])
    ]

All-as_set : (P : String → Type 0) (xs : List String) → All P xs → All P (as_set xs)
unfolding as_set
All-as_set P [] h = tt
All-as_set P (x ∷ xs) h = elim (Bool-cases (any (str_eq x) (as_set xs))) [
  | inl twice ↦ rw (twice) (All-as_set P xs h.1)
  | inr once ↦ rw (once) (h.0, All-as_set P xs h.1)
]

All-insert_text :
    (P : String → Type 0) (x : String) (xs : List String)
    → P x
    → All P xs
    → All P (insert_text x xs)
unfolding insert_text
All-insert_text P x [] h k = (h, tt)
All-insert_text P x (y ∷ xs) h k = elim (Bool-cases (text_leb x y)) [
  | inl first ↦ rw (first) (h, k)
  | inr later ↦ rw (later) (k.0, All-insert_text P x xs h k.1)
]

All-sorted : (P : String → Type 0) (xs : List String) → All P xs → All P (sorted xs)
unfolding sorted
All-sorted P [] h = tt
All-sorted P (x ∷ xs) h = All-insert_text P x (sorted xs) h.0 (All-sorted P xs h.1)

-- A label that could be registered and is another one than the brand's.
abbrev pub Resembles : String → String → Type 0
Resembles label l = (valid_label l ≡ true) × (l ≢ label)

labels-Resembles : (label : String) → All (Resembles label) (labels_of label)
unfolding labels_of
labels-Resembles label =
    let drawn =
      char_swaps "" label ++ (with_lures label lures ++ (concat (label ∷ "-br" ∷ []) ∷ [])) in
    All-sorted (Resembles label) (as_set (select (is_candidate label) drawn)) (
      All-as_set (Resembles label) (select (is_candidate label) drawn) (
        All-select (Resembles label) (is_candidate label) drawn
          (λ l hit. (ground (arith, hit), λ same. ground (arith, hit, (eq_iff l label).1 same)))))

-- A name of such a label under one of the top-level domains.
abbrev pub IsLookalike : String → List String → String → Type 0
IsLookalike label chosen name =
    (l t : String) × Resembles label l
    × (any (str_eq t) chosen ≡ true)
    × (name ≡ concat (l ∷ "." ∷ t ∷ []))

dotted-IsLookalike :
    (label l : String) (chosen some_of : List String)
    → Resembles label l
    → All (λ t. any (str_eq t) chosen ≡ true) some_of
    → All (IsLookalike label chosen) (map (λ t. concat (l ∷ "." ∷ t ∷ [])) some_of)
dotted-IsLookalike label l chosen [] h k = tt
dotted-IsLookalike label l chosen (t ∷ some_of) h k =
    ((l, t, h, k.0, refl), dotted-IsLookalike label l chosen some_of h k.1)

names-IsLookalike :
    (label : String) (chosen labels : List String)
    → All (λ t. any (str_eq t) chosen ≡ true) chosen
    → All (Resembles label) labels
    → All (IsLookalike label chosen) (names_of chosen labels)
unfolding names_of
names-IsLookalike label chosen [] k h = tt
names-IsLookalike label chosen (l ∷ labels) k h =
    All-append (IsLookalike label chosen) (map (λ t. concat (l ∷ "." ∷ t ∷ [])) chosen)
      (names_of chosen labels) (dotted-IsLookalike label l chosen chosen h.0 k)
      (names-IsLookalike label chosen labels k h.1)

any_self : (xs : List String) → All (λ t. any (str_eq t) xs ≡ true) xs
unfolding any
any_self [] = tt
any_self (x ∷ xs) =
    (ground (arith, eq_iff x x), All-map xs (λ t h. ground (arith, h)) (any_self xs))

for-Collected :
    (m : ℕ) (label tld : String)
    → Collected (IsLookalike label (priority_tlds tld)) m (generate_for m label tld)
unfolding Collected
for-Collected m label tld = elim (Bool-cases (str_eq label "")) [
  | inl blank ↦ rw (blank) (omega arith, tt, tt)
  | inr there ↦ rw (there) (
      collect-Collected (IsLookalike label (priority_tlds tld)) m
        (names_of (priority_tlds tld) (labels_of label)) []
        (names-IsLookalike label (priority_tlds tld) (labels_of label)
          (any_self (priority_tlds tld)) (labels-Resembles label))
        (omega arith) tt tt)
]

-- The generator returns at most `max_results` names, but one where that is 0; no name twice; and each
-- is a label that could be registered and is not the brand's own, under the brand's top-level domain
-- or one of the five that are tried.
pub generate_bounds :
    (space : ℕ → Bool) (lower : String → String) (domain : String) (m : ℕ)
    → let names = generate space lower domain m in
      let parts = split_domain space lower domain in
      (length names ≤ max 1 m)
      × IsDistinct names
      × All (IsLookalike parts.0 (priority_tlds parts.1)) names
unfolding generate Collected
generate_bounds space lower domain m =
    for-Collected m (split_domain space lower domain).0 (split_domain space lower domain).1
