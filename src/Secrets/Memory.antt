-- ===== src/Secrets/Memory.antt =====
-- `InMemorySecretResolver` of app/collection/secrets.py against the laws of a resolver.
use Prim.Native.Char.{code}
use threatforge.Common.{
  ℕ, suc, ◌≤◌, String, ◌≡◌, refl, sym, ap, ◌∙◌, Option, none, some, List, [], ◌∷◌, ◌++◌, inl, inr,
  arith, All, str_eq, eq_iff, Bool-cases, ◌==◌, decimal, decimal_injective, IsDigits,
  decimal-IsDigits, concat, text_append, if◌then◌else◌,
}
use threatforge.Models.{
  Dict, lookup, insert, without, lookup-insert_same, lookup-insert_other, lookup-without_same,
}
use threatforge.Secrets.{MemoryStore, memory_ref, memory_put, memory_resolver}
use threatforge.Secrets.Faithful.{FaithfulResolver}

abbrev or_here : Option String → Option String → Option String
or_here (some later) here = some later
or_here none here = here

-- What stands after the last slash of a text.
abbrev after_last : String → Option String
after_last String.[] = none
after_last (String.◌∷◌ c s) = or_here (after_last s) (if code c == b'/' then some s else none)

digits-after_last : (s : String) → IsDigits s → after_last s ≡ none
digits-after_last String.[] h = refl
digits-after_last (String.◌∷◌ c s) h = rw (digits-after_last s h.2) (ground (arith, h.0, h.1))

after_last-append : (s t r : String) → after_last t ≡ some r → after_last (text_append s t) ≡ some r
after_last-append String.[] t r h = h
after_last-append (String.◌∷◌ c s) t r h = rw (after_last-append s t r h) refl

after_last-concat :
    (parts last : List String) (r : String)
    → after_last (concat last) ≡ some r
    → after_last (concat (parts ++ last)) ≡ some r
after_last-concat [] last r h = h
after_last-concat (s ∷ parts) last r h =
    after_last-append s (concat (parts ++ last)) r (after_last-concat parts last r h)

pub append_nil : (s : String) → text_append s "" ≡ s
append_nil String.[] = refl
append_nil (String.◌∷◌ c s) = ap (λ t. String.◌∷◌ c t) (append_nil s)

-- The number of a reference can be read off it.
after_last-memory_ref :
    (tenant : ℕ) (scope name : String) (n : ℕ)
    → after_last (memory_ref tenant scope name n) ≡ some (decimal n)
after_last-memory_ref tenant scope name n =
    let last : after_last (concat ("/" ∷ decimal n ∷ [])) ≡ some (decimal n) =
      rw (append_nil (decimal n)) (rw (digits-after_last (decimal n) (decimal-IsDigits n)) refl) in
    after_last-concat ("secretref://mem/" ∷ decimal tenant ∷ "/" ∷ scope ∷ "/" ∷ name ∷ [])
      ("/" ∷ decimal n ∷ []) (decimal n) last

-- Every reference that is held has been issued.
abbrev pub Issued : ℕ → String × String → Type 0
Issued issued (ref, value) =
    (n tenant : ℕ) × (scope name : String) × (n ≤ issued) × (ref ≡ memory_ref tenant scope name n)

abbrev pub AllIssued : MemoryStore → Type 0
AllIssued st = All (Issued st.issued) st.store

-- A new reference is not held.
fresh_ref :
    (issued : ℕ) (store : Dict String) (ref : String)
    → All (Issued issued) store
    → after_last ref ≡ some (decimal (suc issued))
    → lookup ref store ≡ none
unfolding lookup
fresh_ref issued [] ref h at = refl
fresh_ref issued ((k, v) ∷ store) ref h at = elim (Bool-cases (str_eq k ref)) [
  | inl same ↦
      let (n, tenant, scope, name, bound, held) = h.0 in
      let e : some (decimal n) ≡ some (decimal (suc issued)) =
        sym (after_last-memory_ref tenant scope name n)
        ∙ ap after_last (sym held ∙ (eq_iff k ref).0 same)
        ∙ at in
      absurd (omega (arith, bound, decimal_injective n (suc issued) (cc e)))
  | inr other ↦ rw (other) (fresh_ref issued store ref h.1 at)
]

All-insert :
    (P : String × String → Type 0) (k v : String) (d : Dict String)
    → P (k, v)
    → ((j w x : String) → P (j, w) → P (j, x))
    → All P d
    → All P (insert k v d)
unfolding insert
All-insert P k v [] h any_value rest = (h, tt)
All-insert P k v ((j, w) ∷ d) h any_value rest = elim (Bool-cases (str_eq j k)) [
  | inl same ↦ rw (same) (any_value j w v rest.0, rest.1)
  | inr other ↦ rw (other) (rest.0, All-insert P k v d h any_value rest.1)
]

pub All-without :
    (P : String × String → Type 0) (k : String) (d : Dict String) → All P d → All P (without k d)
unfolding without
All-without P k [] h = tt
All-without P k ((j, w) ∷ d) h = elim (Bool-cases (str_eq j k)) [
  | inl same ↦ rw (same) (All-without P k d h.1)
  | inr other ↦ rw (other) (h.0, All-without P k d h.1)
]

All-more :
    (issued : ℕ) (store : Dict String) → All (Issued issued) store → All (Issued (suc issued)) store
All-more issued [] h = tt
All-more issued (e ∷ store) h =
    let (n, tenant, scope, name, bound, held) = h.0 in
    ((n, tenant, scope, name, omega (arith, bound), held), All-more issued store h.1)

pub memory_put-AllIssued :
    (tenant : ℕ) (scope name value : String) (st : MemoryStore)
    → AllIssued st
    → AllIssued (memory_put tenant scope name value st).1
memory_put-AllIssued tenant scope name value st h =
    let ref = memory_ref tenant scope name (suc st.issued) in
    All-insert (Issued (suc st.issued)) ref value st.store
      (suc st.issued, tenant, scope, name, omega arith, refl) (λ j w x k. k)
      (All-more st.issued st.store h)

pub memory_put-keeps :
    (tenant : ℕ) (scope name value : String) (st : MemoryStore)
    → AllIssued st
    → (ref held : String) → lookup ref st.store ≡ some held
    → lookup ref (memory_put tenant scope name value st).1.store ≡ some held
memory_put-keeps tenant scope name value st h ref held found =
    let new = memory_ref tenant scope name (suc st.issued) in
    elim (Bool-cases (str_eq new ref)) [
      | inl same ↦ absurd (
          ground (
            arith,
            found,
            ap (λ r. lookup r st.store) ((eq_iff new ref).0 same),
            fresh_ref st.issued st.store new h
                (after_last-memory_ref tenant scope name (suc st.issued)),
          ))
      | inr other ↦ lookup-insert_other new ref value st.store other ∙ found
    ]

-- The resolver in memory finds every value under the reference that it was given, and no put takes
-- the place of an earlier one, in any state that arises from the empty one.
abbrev pub memory_faithful : FaithfulResolver memory_resolver
memory_faithful = record {
  Arises = AllIssued;
  put-Arises = memory_put-AllIssued;
  delete-Arises = λ ref st h. All-without (Issued st.issued) ref st.store h;
  get-put = λ tenant scope name value st h.
      lookup-insert_same (memory_ref tenant scope name (suc st.issued)) value st.store;
  put-keeps = memory_put-keeps;
  get-delete = λ ref st. lookup-without_same ref st.store;
}

-- A reference under which a value is found has been issued.
pub found-Issued :
    (issued : ℕ) (store : Dict String) (ref value : String)
    → All (Issued issued) store
    → lookup ref store ≡ some value
    → (n tenant : ℕ) × (scope name : String) × (ref ≡ memory_ref tenant scope name n)
unfolding lookup
found-Issued issued [] ref value k at = absurd (ground (arith, at))
found-Issued issued ((j, w) ∷ store) ref value k at = elim (Bool-cases (str_eq j ref)) [
  | inl same ↦
      let (n, tenant, scope, name, bound, held) = k.0 in
      (n, tenant, scope, name, sym ((eq_iff j ref).0 same) ∙ held)
  | inr other ↦ found-Issued issued store ref value k.1 (ground (arith, at, other))
]
