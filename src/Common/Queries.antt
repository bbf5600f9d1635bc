-- ===== src/Common/Queries.antt =====
-- What every row satisfies, each row of a query satisfies, in whatever order.
use Prim.Native.Nat.{ℕ}
use mathlib.Core.Path.{◌≡◌}
use mathlib.Core.Logic.{inl, inr}
use mathlib.Core.Bool.{Bool, true}
use mathlib.Core.List.{List, [], ◌∷◌}
use threatforge.Common.Tests.{leb, Bool-cases}
use threatforge.Common.Lists.{All, select, insert_by, order_by}

module _ {ℓ κ} {A : Type ℓ} (P : A → Type κ) where
  pub All-select :
      (q : A → Bool) (rows : List A) → ((x : A) → q x ≡ true → P x) → All P (select q rows)
  unfolding select
  All-select q [] hold = tt
  All-select q (x ∷ rows) hold = elim (Bool-cases (q x)) [
    | inl hit ↦ rw (hit) (hold x hit, All-select q rows hold)
    | inr miss ↦ rw (miss) (All-select q rows hold)
  ]

  module _ (key : A → ℕ) where
    All-insert_by : (x : A) (rows : List A) → P x → All P rows → All P (insert_by key x rows)
    All-insert_by x [] h k = (h, tt)
    All-insert_by x (y ∷ rows) h k = elim (Bool-cases (leb (key x) (key y))) [
      | inl first ↦ rw (first) (h, k)
      | inr later ↦ rw (later) (k.0, All-insert_by x rows h k.1)
    ]

    pub All-order_by : (rows : List A) → All P rows → All P (order_by key rows)
    unfolding order_by
    All-order_by [] h = tt
    All-order_by (x ∷ rows) h = All-insert_by x (order_by key rows) h.0 (All-order_by rows h.1)

pub All-map {ℓ κ μ} :
    {A : Type ℓ} {P : A → Type κ} {Q : A → Type μ} (rows : List A)
    → ((x : A) → P x → Q x)
    → All P rows
    → All Q rows
All-map [] f h = tt
All-map (x ∷ rows) f h = (f x h.0, All-map rows f h.1)
