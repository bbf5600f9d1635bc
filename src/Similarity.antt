-- ===== src/Similarity.antt =====
-- app/brand/similarity.py: the edit distance of two texts, by rows. A text is the list of its code
-- points. `ratio` divides by floating point.
pub mod Distance
pub mod Least
mod Tests
use threatforge.Common.{
  ℕ, suc, ◌+◌, Bool, true, false, ◌&&◌, List, [], ◌∷◌, min, length, ◌==◌, if◌then◌else◌,
}

-- `a == b`
unfoldable pub same_text : List ℕ → List ℕ → Bool
same_text [] [] = true
same_text [] (y ∷ b) = false
same_text (x ∷ a) [] = false
same_text (x ∷ a) (y ∷ b) = (x == y) && same_text a b

-- `list(range(start, start + n))`
abbrev pub range_from : ℕ → List ℕ → List ℕ
range_from start [] = start ∷ []
range_from start (y ∷ b) = start ∷ range_from (suc start) b

abbrev pub cost : ℕ → ℕ → ℕ
cost x y = if x == y then 0 else 1

abbrev pub min_of_three : ℕ → ℕ → ℕ → ℕ
min_of_three a b c = min a (min b c)

-- The inner loop: `left` is `cur[j - 1]`, `diag` is `prev[j - 1]`, and the list is `prev[j:]`.
unfoldable pub fill_row : ℕ → ℕ → ℕ → List ℕ → List ℕ → List ℕ
fill_row x left diag (up ∷ prev) (y ∷ b) =
    let v = min_of_three (up + 1) (left + 1) (diag + cost x y) in v ∷ fill_row x v up prev b
fill_row x left diag [] b = []
fill_row x left diag (up ∷ prev) [] = []

abbrev pub next_row : ℕ → ℕ → List ℕ → List ℕ → List ℕ
next_row i x [] b = i ∷ []
next_row i x (diag ∷ prev) b = i ∷ fill_row x i diag prev b

-- The outer loop.
unfoldable pub rows_loop : ℕ → List ℕ → List ℕ → List ℕ → List ℕ
rows_loop i [] prev b = prev
rows_loop i (x ∷ a) prev b = rows_loop (suc i) a (next_row i x prev b) b

-- `prev[-1]`
abbrev pub last_or : ℕ → List ℕ → ℕ
last_or v [] = v
last_or v (w ∷ row) = last_or w row

abbrev pub of_different : List ℕ → List ℕ → ℕ
of_different [] b = length b
of_different (x ∷ a) [] = length (x ∷ a)
of_different (x ∷ a) (y ∷ b) = last_or 0 (rows_loop 1 (x ∷ a) (range_from 0 (y ∷ b)) (y ∷ b))

unfoldable pub levenshtein : List ℕ → List ℕ → ℕ
levenshtein a b = if same_text a b then 0 else of_different a b
