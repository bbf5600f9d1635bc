-- ===== src/Secrets/Clean.antt =====
-- What of a payload may be stored, and what becomes of each entry.
use threatforge.Common.{
  String, ◌≡◌, refl, sym, ap, ◌∙◌, subst, false, Option, some, List, [], ◌∷◌, inl, inr, ◌⊎◌, arith,
  All, str_eq, eq_iff, Bool-cases,
}
use threatforge.Models.{
  Json, Dict, lookup, insert, lookup-insert_same, lookup-insert_other, HasDistinctKeys,
  insert-HasDistinctKeys,
}
use threatforge.Outbox.{contains}
use threatforge.Secrets.{
  Classifier, ChannelSecretSplit, secret_field_names, empty_split, clean, secret_text, add_secret,
  is_token_url, is_outside, classify_entry, classify_entries, classify_payload, schema,
}

-- An entry that may be stored: no secret's name, no URL with a token, and in the schema.
abbrev pub Storable : Classifier → Option (List String) → String × Json → Type 0
Storable env allowed (k, v) =
    (contains secret_field_names (clean env k) ≡ false)
    × (is_token_url env v ≡ false)
    × (is_outside env allowed (clean env k) ≡ false)

All-insert :
    (P : String × Json → Type 0) (k : String) (v : Json) (d : Dict Json)
    → P (k, v)
    → All P d
    → All P (insert k v d)
unfolding insert
All-insert P k v [] h rest = (h, tt)
All-insert P k v ((j, w) ∷ d) h rest = elim (Bool-cases (str_eq j k)) [
  | inl same ↦ rw (same) (subst (λ i. P (i, v)) (sym ((eq_iff j k).0 same)) h, rest.1)
  | inr other ↦ rw (other) (rest.0, All-insert P k v d h rest.1)
]

module _ (env : Classifier) where
  -- The entry is stored as it is, or its text is among the secret values under its cleaned name.
  abbrev pub Held : ChannelSecretSplit → String × Json → Type 0
  Held split (k, v) =
      (lookup k split.config_json ≡ some v)
      ⊎ (lookup (clean env k) split.secret_values ≡ some (secret_text env v))

  abbrev Apart : String → String × Json → Type 0
  Apart k e = str_eq (clean env e.0) (clean env k) ≡ false

  -- No two entries have one cleaned name.
  abbrev pub HasDistinctNames : Dict Json → Type 0
  HasDistinctNames [] = Unit
  HasDistinctNames ((k, v) ∷ payload) = All (Apart k) payload × HasDistinctNames payload

module _ (env : Classifier) (allowed : Option (List String)) where
  -- The ways of an entry, with the split then.
  entry-cases :
      (k : String) (v : Json) (split : ChannelSecretSplit)
      → (Storable env allowed (k, v)
          × (classify_entry env allowed k v split
              ≡ record split { config_json = insert k v split.config_json }))
        ⊎ ((kind : String) × (classify_entry env allowed k v split
              ≡ add_secret env split (clean env k) kind v))
  unfolding classify_entry
  entry-cases k v split = elim (Bool-cases (contains secret_field_names (clean env k))) [
    | inl named ↦ inr ("credential", rw (named) refl)
    | inr unnamed ↦ elim (Bool-cases (is_token_url env v)) [
      | inl token ↦ inr ("webhook_url_with_token", rw (unnamed) (rw (token) refl))
      | inr plain ↦ elim (Bool-cases (is_outside env allowed (clean env k))) [
        | inl unknown ↦
            inr ("unclassified_fail_closed", rw (unnamed) (rw (plain) (rw (unknown) refl)))
        | inr known ↦ inl ((unnamed, plain, known), rw (unnamed) (rw (plain) (rw (known) refl)))
      ]
    ]
  ]

  abbrev AllStorable : ChannelSecretSplit → Type 0
  AllStorable split = All (Storable env allowed) split.config_json

  entry-AllStorable :
      (k : String) (v : Json) (split : ChannelSecretSplit)
      → AllStorable split
      → AllStorable (classify_entry env allowed k v split)
  unfolding add_secret
  entry-AllStorable k v split h = elim (entry-cases k v split) [
    | inl (fine, e) ↦
        subst AllStorable (sym e) (All-insert (Storable env allowed) k v split.config_json fine h)
    | inr (kind, e) ↦ subst AllStorable (sym e) h
  ]

  entries-AllStorable :
      (payload : Dict Json) (split : ChannelSecretSplit)
      → AllStorable split
      → AllStorable (classify_entries env allowed payload split)
  unfolding classify_entries
  entries-AllStorable [] split h = h
  entries-AllStorable ((k, v) ∷ payload) split h =
      entries-AllStorable payload (classify_entry env allowed k v split)
        (entry-AllStorable k v split h)

  raw_apart : (k j : String) → str_eq (clean env j) (clean env k) ≡ false → str_eq j k ≡ false
  raw_apart k j apart = elim (Bool-cases (str_eq j k)) [
    | inl same ↦ absurd (
        ground
          (arith, apart, eq_iff (clean env j) (clean env k), ap (clean env) ((eq_iff j k).0 same)))
    | inr other ↦ other
  ]

  -- An entry with another name leaves it there.
  entry-Held :
      (k j : String) (v w : Json) (split : ChannelSecretSplit)
      → Apart env k (j, w)
      → Held env split (k, v)
      → Held env (classify_entry env allowed j w split) (k, v)
  unfolding add_secret
  entry-Held k j v w split apart (inl stored) = elim (entry-cases j w split) [
    | inl (fine, e) ↦ inl (
        ap (λ s. lookup k s.config_json) e
        ∙ lookup-insert_other j k w split.config_json (raw_apart k j apart)
        ∙ stored)
    | inr (kind, e) ↦ inl (ap (λ s. lookup k s.config_json) e ∙ stored)
  ]
  entry-Held k j v w split apart (inr secret) = elim (entry-cases j w split) [
    | inl (fine, e) ↦ inr (ap (λ s. lookup (clean env k) s.secret_values) e ∙ secret)
    | inr (kind, e) ↦ inr (
        ap (λ s. lookup (clean env k) s.secret_values) e
        ∙ lookup-insert_other (clean env j) (clean env k) (secret_text env w) split.secret_values
            apart
        ∙ secret)
  ]

  entries-Held :
      (k : String) (v : Json) (payload : Dict Json) (split : ChannelSecretSplit)
      → All (Apart env k) payload
      → Held env split (k, v)
      → Held env (classify_entries env allowed payload split) (k, v)
  unfolding classify_entries
  entries-Held k v [] split apart h = h
  entries-Held k v ((j, w) ∷ payload) split apart h =
      entries-Held k v payload (classify_entry env allowed j w split) apart.1
        (entry-Held k j v w split apart.0 h)

  own-Held :
      (k : String) (v : Json) (split : ChannelSecretSplit)
      → Held env (classify_entry env allowed k v split) (k, v)
  unfolding add_secret
  own-Held k v split = elim (entry-cases k v split) [
    | inl (fine, e) ↦
        inl (ap (λ s. lookup k s.config_json) e ∙ lookup-insert_same k v split.config_json)
    | inr (kind, e) ↦ inr (
        ap (λ s. lookup (clean env k) s.secret_values) e
        ∙ lookup-insert_same (clean env k) (secret_text env v) split.secret_values)
  ]

  entries_complete :
      (payload : Dict Json) (split : ChannelSecretSplit)
      → HasDistinctNames env payload
      → All (Held env (classify_entries env allowed payload split)) payload
  unfolding classify_entries
  entries_complete [] split h = tt
  entries_complete ((k, v) ∷ payload) split h = (
    entries-Held k v payload (classify_entry env allowed k v split) h.0 (own-Held k v split),
    entries_complete payload (classify_entry env allowed k v split) h.1,
  )

-- The names of the secret values differ.
module _ (env : Classifier) (allowed : Option (List String)) where
  entries-HasDistinctKeys :
      (payload : Dict Json) (split : ChannelSecretSplit)
      → HasDistinctKeys split.secret_values
      → HasDistinctKeys (classify_entries env allowed payload split).secret_values
  unfolding classify_entries add_secret
  entries-HasDistinctKeys [] split h = h
  entries-HasDistinctKeys ((k, v) ∷ payload) split h =
      entries-HasDistinctKeys payload (classify_entry env allowed k v split)
        (elim (entry-cases env allowed k v split) [
          | inl (fine, e) ↦ subst (λ s. HasDistinctKeys s.secret_values) (sym e) h
          | inr (kind, e) ↦
              subst (λ s. HasDistinctKeys s.secret_values) (sym e)
                (insert-HasDistinctKeys (clean env k) (secret_text env v) split.secret_values h)
        ])

pub classify-HasDistinctKeys :
    (env : Classifier) (payload : Dict Json) (channel_type provider : Option String)
    → HasDistinctKeys (classify_payload env payload channel_type provider).secret_values
unfolding classify_payload
classify-HasDistinctKeys env payload channel_type provider =
    entries-HasDistinctKeys env (schema env channel_type provider) payload empty_split tt

-- Whatever the payload, what is stored of it has no secret's name, no URL that carries a token as a
-- value, and only names of the schema, where a channel type or a provider is given.
pub classify_clean :
    (env : Classifier) (payload : Dict Json) (channel_type provider : Option String)
    → All
        (Storable env (schema env channel_type provider))
        (classify_payload env payload channel_type provider).config_json
unfolding classify_payload
classify_clean env payload channel_type provider =
    entries-AllStorable env (schema env channel_type provider) payload empty_split tt

-- Nothing is lost: each entry of a payload whose cleaned names differ is stored as it is, or its
-- text is handed on as a secret under the cleaned name.
pub classify_complete :
    (env : Classifier) (payload : Dict Json) (channel_type provider : Option String)
    → HasDistinctNames env payload
    → All (Held env (classify_payload env payload channel_type provider)) payload
unfolding classify_payload
classify_complete env payload channel_type provider h =
    entries_complete env (schema env channel_type provider) payload empty_split h
