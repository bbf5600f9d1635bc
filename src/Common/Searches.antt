-- ===== src/Common/Searches.antt =====
-- Searching a table that has been extended, updated or ordered.
use Prim.Native.Nat.{ℕ, suc, ◌+◌}
use mathlib.Core.Path.{◌≡◌, refl, ap, ◌∙◌}
use mathlib.Core.Bool.{Bool, false, ◌||◌}
use mathlib.Core.List.{List, [], ◌∷◌, ◌++◌}
use native.Mathlib.Omega.{arith}
use threatforge.Common.Tests.{is_some}
use threatforge.Common.Lists.{length, find?, any, update, insert_by, order_by}

module _ {ℓ} {A : Type ℓ} where
  pub length-append : (xs ys : List A) → length (xs ++ ys) ≡ length xs + length ys
  length-append [] ys = omega arith
  length-append (x ∷ xs) ys = omega (arith, length-append xs ys)

  pub length-update : (q : A → Bool) (f : A → A) (xs : List A) → length (update q f xs) ≡ length xs
  unfolding update
  length-update q f [] = refl
  length-update q f (x ∷ xs) = ap suc (length-update q f xs)

  -- Rows that do not match do not come into a search.
  pub find?-append :
      (p : A → Bool) (xs ys : List A) → any p xs ≡ false → find? p (xs ++ ys) ≡ find? p ys
  unfolding find? any
  find?-append p [] ys h = refl
  find?-append p (x ∷ xs) ys h = ground (arith, h, find?-append p xs ys)

  -- A row is found exactly if one matches.
  pub is_some-find? : (p : A → Bool) (xs : List A) → is_some (find? p xs) ≡ any p xs
  unfolding find? any
  is_some-find? p [] = refl
  is_some-find? p (x ∷ xs) = ground (arith, is_some-find? p xs)

  pub any-update :
      (p q : A → Bool) (f : A → A) (xs : List A)
      → ((x : A) → p (f x) ≡ p x)
      → any p (update q f xs) ≡ any p xs
  unfolding any update
  any-update p q f [] keeps = refl
  any-update p q f (x ∷ xs) keeps = ground (arith, keeps x, any-update p q f xs keeps)

  any-insert_by :
      (key : A → ℕ) (p : A → Bool) (x : A) (xs : List A)
      → any p (insert_by key x xs) ≡ (p x || any p xs)
  unfolding any
  any-insert_by key p x [] = refl
  any-insert_by key p x (y ∷ xs) = ground (arith, any-insert_by key p x xs)

  pub any-order_by : (key : A → ℕ) (p : A → Bool) (xs : List A) → any p (order_by key xs) ≡ any p xs
  unfolding any order_by
  any-order_by key p [] = refl
  any-order_by key p (x ∷ xs) =
      any-insert_by key p x (order_by key xs) ∙ ap (λ b. p x || b) (any-order_by key p xs)

  pub any-append : (p : A → Bool) (xs ys : List A) → any p (xs ++ ys) ≡ (any p xs || any p ys)
  unfolding any
  any-append p [] ys = refl
  any-append p (x ∷ xs) ys = ground (arith, any-append p xs ys)
