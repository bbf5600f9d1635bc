-- ===== src/Common/Tables.antt =====
-- A database table is a list of rows with a numeric primary key: lookups by key, updates of the
-- rows that a condition selects, and the laws that join the two.
use Prim.Native.Nat.{ℕ, ◌+◌}
use mathlib.Core.Path.{◌≡◌, refl, subst}
use mathlib.Core.Logic.{inl, inr}
use mathlib.Core.Bool.{Bool, true, false}
use mathlib.Core.Option.{Option, none, some}
use mathlib.Core.List.{List, [], ◌∷◌}
use native.Mathlib.Omega.{arith}
use threatforge.Common.Tests.{◌==◌, if◌then◌else◌, Bool-cases, Option-cases}
use threatforge.Common.Lists.{All, count, find?, update}

module _ {ℓ} {A : Type ℓ} where
  -- A change of a row that may be absent.
  abbrev pub on_row : (A → A) → Option A → Option A
  on_row f none = none
  on_row f (some x) = some (f x)

  -- How many rows a condition hits, if only the row at hand can satisfy it.
  abbrev pub hits : (A → Bool) → Option A → ℕ
  hits q none = 0
  hits q (some x) = if q x then 1 else 0

  pub update_none :
      (q : A → Bool) (f : A → A) (rows : List A) → count q rows ≡ 0 → update q f rows ≡ rows
  unfolding count update
  update_none q f [] h = refl
  update_none q f (x ∷ rows) h = ground (arith, update_none q f rows)

  pub All-update {κ} :
      {P : A → Type κ} (q : A → Bool) (f : A → A) (rows : List A)
      → ((x : A) → q x ≡ true → P x → P (f x))
      → All P rows
      → All P (update q f rows)
  unfolding update
  All-update q f [] keep h = tt
  All-update {P} q f (x ∷ rows) keep h = (one (q x) (keep x), All-update q f rows keep h.1)
    where
      one : (b : Bool) → (b ≡ true → P x → P (f x)) → P (if b then f x else x)
      one true k = k refl h.0
      one false k = h.0

  -- A query sees an update that does not change which rows it finds.
  pub find?-update :
      (p q : A → Bool) (f : A → A) (rows : List A) {x : A}
      → ((y : A) → p (f y) ≡ p y)
      → find? p rows ≡ some x
      → find? p (update q f rows) ≡ some (if q x then f x else x)
  unfolding find? update
  find?-update p q f [] keeps h = absurd (ground arith)
  find?-update p q f (y ∷ rows) {x} keeps h =
      ground (arith, keeps y, find?-update p q f rows {x = x} keeps)

module _ {ℓ} {A : Type ℓ} (key : A → ℕ) where
  abbrev pub get_row : ℕ → List A → Option A
  get_row id rows = find? (λ x. key x == id) rows

  -- No key stands twice.
  abbrev pub IsKeyed : List A → Type ℓ
  IsKeyed [] = Unit
  IsKeyed (x ∷ rows) = (get_row (key x) rows ≡ none) × IsKeyed rows

  pub key-get_row : (id : ℕ) (rows : List A) {x : A} → get_row id rows ≡ some x → key x ≡ id
  unfolding find?
  key-get_row id [] h = ground arith
  key-get_row id (y ∷ rows) {x} h = ground (arith, key-get_row id rows {x = x})

  pub All-get_row {κ} :
      (P : A → Type κ) (id : ℕ) (rows : List A) {x : A}
      → All P rows
      → get_row id rows ≡ some x
      → P x
  unfolding find?
  All-get_row P id [] h e = absurd (ground arith)
  All-get_row P id (y ∷ rows) {x} h e = elim (Bool-cases (key y == id)) [
    | inl same ↦ subst P (ground arith) h.0
    | inr other ↦ All-get_row P id rows h.1 (ground arith)
  ]

  -- Where no key stands twice, a row that a query finds is the row of its key.
  pub get_row-found :
      (p : A → Bool) (rows : List A) (x : A)
      → IsKeyed rows
      → find? p rows ≡ some x
      → get_row (key x) rows ≡ some x
  unfolding find?
  get_row-found p [] x keyed h = absurd (ground arith)
  get_row-found p (y ∷ rows) x keyed h = ground (arith, h, keyed.0, get_row-found p rows x keyed.1)

module _ {ℓ} {A : Type ℓ} (key : A → ℕ) (q : A → Bool) (f : A → A)
    (keeps : (x : A) → key (f x) ≡ key x) where
  pub get_row-update :
      (id : ℕ) (rows : List A)
      → get_row key id (update q f rows)
        ≡ on_row (λ x. if q x then f x else x) (get_row key id rows)
  unfolding find? update
  get_row-update id [] = refl
  get_row-update id (x ∷ rows) = ground (arith, keeps x, get_row-update id rows)

  -- An update of the row `id`, as every lookup sees it.
  pub get_row_after :
      (id j : ℕ) (rows : List A) {x : A}
      → get_row key id rows ≡ some x
      → ((y : A) → q y ≡ (key y == id))
      → get_row key j (update q f rows) ≡ (if j == id then some (f x) else get_row key j rows)
  get_row_after id j rows {x} found at_id =
      rw (get_row-update j rows) (elim (Option-cases (get_row key j rows)) [
        | inl gone ↦ rw gone (ground (arith, found, gone))
        | inr (y, e) ↦ rw e (ground (arith, found, at_id y, key-get_row key j rows e))
      ])

  pub IsKeyed-update : (rows : List A) → IsKeyed key rows → IsKeyed key (update q f rows)
  unfolding update
  IsKeyed-update [] h = tt
  IsKeyed-update (x ∷ rows) h =
      ground (arith, keeps x, get_row-update (key x) rows, IsKeyed-update rows h.1)

module _ {ℓ} {A : Type ℓ} (key : A → ℕ) (id : ℕ) (q : A → Bool)
    (only : (x : A) → q x ≡ true → key x ≡ id) where
  count_absent : (rows : List A) → get_row key id rows ≡ none → count q rows ≡ 0
  unfolding count find?
  count_absent [] h = refl
  count_absent (x ∷ rows) h = ground (arith, only x, count_absent rows)

  pub count_keyed : (rows : List A) → IsKeyed key rows → count q rows ≡ hits q (get_row key id rows)
  unfolding count find?
  count_keyed [] h = refl
  count_keyed (x ∷ rows) h = ground (arith, only x, count_absent rows, count_keyed rows h.1)

module _ {ℓ} {A : Type ℓ} (key : A → ℕ) (id : ℕ) (q : A → Bool)
    (only : (x : A) → q x ≡ true → key x ≡ id) (f : A → A) (p : A → Bool) where
  update_absent :
      (rows : List A) → get_row key id rows ≡ none → count p (update q f rows) ≡ count p rows
  unfolding count find? update
  update_absent [] h = refl
  update_absent (x ∷ rows) h = ground (arith, only x, update_absent rows)

  -- Changing one row changes a count by what that row counts.
  pub count-update :
      (rows : List A) (x : A)
      → IsKeyed key rows
      → get_row key id rows ≡ some x
      → q x ≡ true
      → count p (update q f rows) + hits p (some x) ≡ count p rows + hits p (some (f x))
  unfolding count find? update
  count-update [] x keyed found hit = absurd (ground arith)
  count-update (y ∷ rows) x keyed found hit =
      ground (arith, only y, update_absent rows, count-update rows x keyed.1)
