-- ===== src/Similarity/Distance.antt =====
-- The rows hold the distances of the prefixes, by the recursion on both texts.
use threatforge.Common.{
  ℕ, suc, ◌+◌, ◌≡◌, refl, ap, sym, ◌∙◌, true, List, [], ◌∷◌, arith, length, inl, inr, Bool-cases,
}
use threatforge.Similarity.{
  same_text, range_from, cost, min_of_three, fill_row, next_row, rows_loop, last_or, of_different,
  levenshtein,
}

-- The distance of two texts that are read from their ends.
unfoldable pub distance : List ℕ → List ℕ → ℕ
distance [] b = length b
distance (x ∷ a) [] = suc (length a)
distance (x ∷ a) (y ∷ b) =
    min_of_three (distance a (y ∷ b) + 1) (distance (x ∷ a) b + 1) (distance a b + cost x y)

-- The text whose end is read first: `read` has been read, `b` is left.
abbrev pub rev_onto : List ℕ → List ℕ → List ℕ
rev_onto [] read = read
rev_onto (y ∷ b) read = rev_onto b (y ∷ read)

-- The distances of `a` to the longer and longer prefixes of a text.
abbrev pub row_of : List ℕ → List ℕ → List ℕ → List ℕ
row_of a read [] = distance a read ∷ []
row_of a read (y ∷ b) = distance a read ∷ row_of a (y ∷ read) b

abbrev rest_of : List ℕ → List ℕ → List ℕ → List ℕ
rest_of a read [] = []
rest_of a read (y ∷ b) = row_of a (y ∷ read) b

row_of-eq : (a read b : List ℕ) → row_of a read b ≡ distance a read ∷ rest_of a read b
row_of-eq a read [] = refl
row_of-eq a read (y ∷ b) = refl

fill_row-eq :
    (x : ℕ) (a read b : List ℕ)
    → fill_row x (distance (x ∷ a) read) (distance a read) (rest_of a read b) b
      ≡ rest_of (x ∷ a) read b
unfolding fill_row distance
fill_row-eq x a read [] = refl
fill_row-eq x a read (y ∷ b) =
    rw (row_of-eq a (y ∷ read) b, row_of-eq (x ∷ a) (y ∷ read) b)
      (ap (λ r. distance (x ∷ a) (y ∷ read) ∷ r) (fill_row-eq x a (y ∷ read) b))

range_from-eq : (read b : List ℕ) → range_from (length read) b ≡ row_of [] read b
unfolding distance
range_from-eq read [] = refl
range_from-eq read (y ∷ b) = ap (λ r. length read ∷ r) (range_from-eq (y ∷ read) b)

distance-nil : (a : List ℕ) → distance a [] ≡ length a
unfolding distance
distance-nil [] = refl
distance-nil (x ∷ a) = refl

next_row-eq :
    (x : ℕ) (a b : List ℕ) → next_row (suc (length a)) x (row_of a [] b) b ≡ row_of (x ∷ a) [] b
unfolding distance
next_row-eq x a b =
    rw (row_of-eq a [] b, row_of-eq (x ∷ a) [] b)
      (ap (λ r. suc (length a) ∷ r) (fill_row-eq x a [] b))

rows_loop-eq :
    (a read b : List ℕ)
    → rows_loop (suc (length read)) a (row_of read [] b) b ≡ row_of (rev_onto a read) [] b
unfolding rows_loop
rows_loop-eq [] read b = refl
rows_loop-eq (x ∷ a) read b = rw (next_row-eq x read b) (rows_loop-eq a (x ∷ read) b)

last-row_of :
    (v : ℕ) (a read b : List ℕ) → last_or v (row_of a read b) ≡ distance a (rev_onto b read)
last-row_of v a read [] = refl
last-row_of v a read (y ∷ b) = last-row_of (distance a read) a (y ∷ read) b

length-rev_onto : (b read : List ℕ) → length (rev_onto b read) ≡ length b + length read
length-rev_onto [] read = omega arith
length-rev_onto (y ∷ b) read = omega (arith, length-rev_onto b (y ∷ read))

length-rev : (b : List ℕ) → length (rev_onto b []) ≡ length b
length-rev b = omega (arith, length-rev_onto b [])

distance-empty : (b : List ℕ) → distance [] b ≡ length b
unfolding distance
distance-empty b = refl

same_text_sound : (a b : List ℕ) → same_text a b ≡ true → a ≡ b
unfolding same_text
same_text_sound [] [] h = refl
same_text_sound [] (y ∷ b) h = cc
same_text_sound (x ∷ a) [] h = cc
same_text_sound (x ∷ a) (y ∷ b) h = ground (arith, same_text_sound a b)

distance_self : (a : List ℕ) → distance a a ≡ 0
unfolding distance
distance_self [] = refl
distance_self (x ∷ a) = ground (arith, distance_self a)

of_different-eq : (a b : List ℕ) → of_different a b ≡ distance (rev_onto a []) (rev_onto b [])
of_different-eq [] b = sym (distance-empty (rev_onto b []) ∙ length-rev b)
of_different-eq (x ∷ a) [] = sym (distance-nil (rev_onto (x ∷ a) []) ∙ length-rev (x ∷ a))
of_different-eq (x ∷ a) (y ∷ b) =
    ap (λ r. last_or 0 (rows_loop 1 (x ∷ a) r (y ∷ b))) (range_from-eq [] (y ∷ b))
    ∙ ap (last_or 0) (rows_loop-eq (x ∷ a) [] (y ∷ b))
    ∙ last-row_of 0 (rev_onto (x ∷ a) []) [] (y ∷ b)

-- What the rows compute is the distance by recursion.
pub levenshtein-distance :
    (a b : List ℕ) → levenshtein a b ≡ distance (rev_onto a []) (rev_onto b [])
unfolding levenshtein
levenshtein-distance a b = elim (Bool-cases (same_text a b)) [
  | inl same ↦ rw (same) (rw (same_text_sound a b same) (sym (distance_self (rev_onto b []))))
  | inr other ↦ rw (other) (of_different-eq a b)
]
