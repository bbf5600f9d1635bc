-- ===== src/Similarity/Least.antt =====
-- The edit distance is the length of a shortest edit script.
use threatforge.Common.{
  ℕ, suc, ◌+◌, ◌≤◌, ◌≡◌, refl, ap, sym, subst, ◌∙◌, List, [], ◌∷◌, ◌++◌, arith, min, length, leb,
  ◌⊎◌, ◌==◌, ==_iff, inl, inr, Bool-cases,
}
use threatforge.Similarity.{levenshtein, cost}
use threatforge.Similarity.Distance.{distance, rev_onto, levenshtein-distance}

-- An edit script from one text to another, with the number of its edits: characters are kept, and
-- each is an edit to change, drop or add one.
pub data Edits : List ℕ → List ℕ → ℕ → Type 0 where
  done : Edits [] [] 0
  keep : {a b : List ℕ} {n : ℕ} (x : ℕ) → Edits a b n → Edits (x ∷ a) (x ∷ b) n
  change : {a b : List ℕ} {n : ℕ} (x y : ℕ) → Edits a b n → Edits (x ∷ a) (y ∷ b) (suc n)
  delete : {a b : List ℕ} {n : ℕ} (x : ℕ) → Edits a b n → Edits (x ∷ a) b (suc n)
  add : {a b : List ℕ} {n : ℕ} (y : ℕ) → Edits a b n → Edits a (y ∷ b) (suc n)

add_all : (b : List ℕ) → Edits [] b (length b)
add_all [] = done
add_all (y ∷ b) = add y (add_all b)

delete_all : (a : List ℕ) → Edits a [] (length a)
delete_all [] = done
delete_all (x ∷ a) = delete x (delete_all a)

resize : {a b : List ℕ} {n : ℕ} (m : ℕ) → n ≡ m → Edits a b n → Edits a b m
resize {a} {b} m same s = subst (λ k. Edits a b k) same s

distance-delete : (x : ℕ) (a b : List ℕ) → distance (x ∷ a) b ≤ distance a b + 1
unfolding distance
distance-delete x [] [] = omega arith
distance-delete x (z ∷ a) [] = omega arith
distance-delete x a (y ∷ b) = omega arith

distance-add : (y : ℕ) (a b : List ℕ) → distance a (y ∷ b) ≤ distance a b + 1
unfolding distance
distance-add y [] b = omega arith
distance-add y (x ∷ a) b = omega arith

distance-change : (x y : ℕ) (a b : List ℕ) → distance (x ∷ a) (y ∷ b) ≤ distance a b + cost x y
unfolding distance
distance-change x y a b = omega arith

-- No script is shorter than the distance.
Edits-least : {a b : List ℕ} {n : ℕ} → Edits a b n → distance a b ≤ n
unfolding distance
Edits-least done = omega arith
Edits-least (keep {a} {b} {n} x s) = ground (arith, Edits-least s, distance-change x x a b)
Edits-least (change {a} {b} {n} x y s) = ground (arith, Edits-least s, distance-change x y a b)
Edits-least (delete {a} {b} {n} x s) = omega (arith, Edits-least s, distance-delete x a b)
Edits-least (add {a} {b} {n} y s) = omega (arith, Edits-least s, distance-add y a b)

min-cases : (a b : ℕ) → (min a b ≡ a) ⊎ (min a b ≡ b)
min-cases a b = elim (Bool-cases (leb a b)) [
  | inl small ↦ inl (ground (arith, small))
  | inr large ↦ inr (ground (arith, large))
]

change_by : {a b : List ℕ} (x y n : ℕ) → Edits a b n → Edits (x ∷ a) (y ∷ b) (n + cost x y)
change_by {a} {b} x y n s = elim (Bool-cases (x == y)) [
  | inl same ↦
      subst (λ z. Edits (x ∷ a) (z ∷ b) (n + cost x y)) ((==_iff x y).0 same)
        (resize (n + cost x y) (ground (arith, same)) (keep x s))
  | inr other ↦ resize (n + cost x y) (ground (arith, other)) (change x y s)
]

-- Some script is as short.
shortest : (a b : List ℕ) → Edits a b (distance a b)
unfolding distance
shortest [] b = add_all b
shortest (x ∷ a) [] = delete_all (x ∷ a)
shortest (x ∷ a) (y ∷ b) =
    let p = distance a (y ∷ b) + 1 in
    let q = distance (x ∷ a) b + 1 in
    let r = distance a b + cost x y in
    elim (min-cases p (min q r)) [
      | inl first ↦ resize (min p (min q r)) (omega (arith, first)) (delete x (shortest a (y ∷ b)))
      | inr later ↦ elim (min-cases q r) [
        | inl second ↦
            resize (min p (min q r)) (omega (arith, later, second)) (add y (shortest (x ∷ a) b))
        | inr third ↦
            resize (min p (min q r)) (omega (arith, later, third))
              (change_by x y (distance a b) (shortest a b))
      ]
    ]

-- A script between the texts read from their ends.
Edits-after :
    {a b c d : List ℕ} {n : ℕ} (m : ℕ)
    → Edits a b n
    → Edits c d m
    → Edits (rev_onto a c) (rev_onto b d) (n + m)
Edits-after m done t = resize (0 + m) (omega arith) t
Edits-after m (keep {a} {b} {n} x s) t = Edits-after m s (keep x t)
Edits-after m (change {a} {b} {n} x y s) t =
    resize (suc n + m) (omega arith) (Edits-after (suc m) s (change x y t))
Edits-after m (delete {a} {b} {n} x s) t =
    resize (suc n + m) (omega arith) (Edits-after (suc m) s (delete x t))
Edits-after m (add {a} {b} {n} y s) t =
    resize (suc n + m) (omega arith) (Edits-after (suc m) s (add y t))

Edits-rev : {a b : List ℕ} (n : ℕ) → Edits a b n → Edits (rev_onto a []) (rev_onto b []) n
Edits-rev n s = resize n (omega arith) (Edits-after 0 s done)

rev_onto-rev_onto :
    (a read left : List ℕ) → rev_onto (rev_onto a read) left ≡ rev_onto read (a ++ left)
rev_onto-rev_onto [] read left = refl
rev_onto-rev_onto (x ∷ a) read left = rev_onto-rev_onto a (x ∷ read) left

append_empty : (a : List ℕ) → a ++ [] ≡ a
append_empty [] = refl
append_empty (x ∷ a) = ap (λ r. x ∷ r) (append_empty a)

rev_twice : (a : List ℕ) → rev_onto (rev_onto a []) [] ≡ a
rev_twice a = rev_onto-rev_onto a [] [] ∙ append_empty a

-- A script for the texts as the rows read them, turned round.
script : (a b : List ℕ) → Edits a b (levenshtein a b)
script a b =
    let s = Edits-rev (levenshtein a b) (
      resize (levenshtein a b) (sym (levenshtein-distance a b))
        (shortest (rev_onto a []) (rev_onto b []))) in
    subst (λ c. Edits c b (levenshtein a b)) (rev_twice a)
      (subst (λ d. Edits (rev_onto (rev_onto a []) []) d (levenshtein a b)) (rev_twice b) s)

-- The edit distance is the number of edits of a shortest script: there is a script with that many
-- edits, and none that turns the one text into the other has fewer.
pub levenshtein_least :
    (a b : List ℕ) (n : ℕ) → Edits a b n → Edits a b (levenshtein a b) × (levenshtein a b ≤ n)
levenshtein_least a b n s =
    (script a b, rw (levenshtein-distance a b) (Edits-least (Edits-rev n s)))
