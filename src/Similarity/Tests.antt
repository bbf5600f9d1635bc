-- ===== src/Similarity/Tests.antt =====
-- Two distances, and the theorems at them.
use threatforge.Common.{ℕ, ◌≤◌, ◌≡◌, refl, List, [], ◌∷◌}
use threatforge.Similarity.{levenshtein, same_text, fill_row, rows_loop}
use threatforge.Similarity.Least.{Edits, add, change, keep, done, levenshtein_least}

-- "acme" and "acne!"
abbrev brand : List ℕ
brand = b'a' ∷ b'c' ∷ b'm' ∷ b'e' ∷ []

abbrev fake : List ℕ
fake = b'a' ∷ b'c' ∷ b'n' ∷ b'e' ∷ b'!' ∷ []

fake_run : levenshtein brand fake ≡ 2
unfolding levenshtein same_text rows_loop fill_row
fake_run = refl

-- A script that also writes the first character anew.
wasteful : Edits brand fake 3
wasteful = change b'a' b'a' (keep b'c' (change b'm' b'n' (keep b'e' (add b'!' done))))

levenshtein_least_example : Edits brand fake (levenshtein brand fake) × (levenshtein brand fake ≤ 3)
levenshtein_least_example = levenshtein_least brand fake 3 wasteful
