-- ===== src/Secrets/Faithful.antt =====
-- What a resolver promises, as a record of laws, and `persist_secrets` over such a resolver.
use threatforge.Common.{
  ℕ, String, ◌≡◌, sym, ap, ◌∙◌, none, some, [], ◌∷◌, inl, inr, arith, str_eq, eq_iff, Bool-cases,
}
use threatforge.Models.{
  Dict, lookup, insert, lookup-insert_same, lookup-insert_other, HasDistinctKeys,
}
use threatforge.Secrets.{SecretResolver, ChannelSecretSplit, persist_each, persist_secrets}

pub record FaithfulResolver {S : Type 0} (resolver : SecretResolver S) : Type 1 where
  -- the states that arise
  pub Arises : S → Type 0
  pub put-Arises :
      (tenant : ℕ) (scope name value : String) (st : S)
      → Arises st
      → Arises (resolver.put tenant scope name value st).1
  pub delete-Arises : (ref : String) (st : S) → Arises st → Arises (resolver.delete ref st)
  pub get-put :
      (tenant : ℕ) (scope name value : String) (st : S)
      → Arises st
      → resolver.get
          (resolver.put tenant scope name value st).0
          (resolver.put tenant scope name value st).1
        ≡ some value
  pub put-keeps :
      (tenant : ℕ) (scope name value : String) (st : S)
      → Arises st
      → (ref held : String) → resolver.get ref st ≡ some held
      → resolver.get ref (resolver.put tenant scope name value st).1 ≡ some held
  pub get-delete : (ref : String) (st : S) → resolver.get ref (resolver.delete ref st) ≡ none

module _ {S : Type 0} (resolver : SecretResolver S) (faithful : FaithfulResolver resolver) where
  -- A reference to the value is there under the name.
  abbrev pub Resolves : String → String → Dict String × S → Type 0
  Resolves name value (refs, st) =
      (ref : String) × (lookup name refs ≡ some ref) × (resolver.get ref st ≡ some value)

  later-Resolves :
      (tenant : ℕ) (scope : String) (values refs : Dict String) (st : S) (name value : String)
      → faithful.Arises st
      → lookup name values ≡ none
      → Resolves name value (refs, st)
      → Resolves name value (persist_each resolver tenant scope values refs st)
  unfolding persist_each lookup
  later-Resolves tenant scope [] refs st name value good absent h = h
  later-Resolves tenant scope ((k, v) ∷ values) refs st name value good absent h =
      let put = resolver.put tenant scope k v st in
      later-Resolves tenant scope values (insert k put.0 refs) put.1 name value
        (faithful.put-Arises tenant scope k v st good) (ground (arith, absent))
        (
          h.0,
          lookup-insert_other k name put.0 refs (ground (arith, absent)) ∙ h.1,
          faithful.put-keeps tenant scope k v st good h.0 value h.2,
        )

  each-Resolves :
      (tenant : ℕ) (scope : String) (values refs : Dict String) (st : S) (name value : String)
      → faithful.Arises st
      → HasDistinctKeys values
      → lookup name values ≡ some value
      → Resolves name value (persist_each resolver tenant scope values refs st)
  unfolding persist_each lookup
  each-Resolves tenant scope [] refs st name value good distinct found =
      absurd (ground (arith, found))
  each-Resolves tenant scope ((k, v) ∷ values) refs st name value good distinct found =
      let put = resolver.put tenant scope k v st in
      elim (Bool-cases (str_eq k name)) [
        | inl same ↦
            let it : k ≡ name = (eq_iff k name).0 same in
            later-Resolves tenant scope values (insert k put.0 refs) put.1 name value
              (faithful.put-Arises tenant scope k v st good)
              (ap (λ n. lookup n values) (sym it) ∙ distinct.0)
              (
                put.0,
                ap (λ n. lookup n (insert k put.0 refs)) (sym it) ∙ lookup-insert_same k put.0 refs,
                faithful.get-put tenant scope k v st good ∙ ground (arith, same, found),
              )
        | inr other ↦
            each-Resolves tenant scope values (insert k put.0 refs) put.1 name value
              (faithful.put-Arises tenant scope k v st good) distinct.1
              (ground (arith, other, found))
      ]

  each-Arises :
      (tenant : ℕ) (scope : String) (values refs : Dict String) (st : S)
      → faithful.Arises st
      → faithful.Arises (persist_each resolver tenant scope values refs st).1
  unfolding persist_each
  each-Arises tenant scope [] refs st good = good
  each-Arises tenant scope ((k, v) ∷ values) refs st good =
      let put = resolver.put tenant scope k v st in
      each-Arises tenant scope values (insert k put.0 refs) put.1
        (faithful.put-Arises tenant scope k v st good)

  pub persisted-Arises :
      (tenant : ℕ) (scope : String) (split : ChannelSecretSplit) (st : S)
      → faithful.Arises st
      → faithful.Arises (persist_secrets resolver tenant scope split st).2
  unfolding persist_secrets
  persisted-Arises tenant scope split st good =
      each-Arises tenant scope split.secret_values [] st good

  -- Through a faithful resolver every value of a split is found again, from the reference that is
  -- persisted under its name.
  pub persisted_resolves :
      (tenant : ℕ) (scope : String) (split : ChannelSecretSplit) (st : S) (name value : String)
      → faithful.Arises st
      → HasDistinctKeys split.secret_values
      → lookup name split.secret_values ≡ some value
      → let done = persist_secrets resolver tenant scope split st in
        (ref : String) × (lookup name done.0 ≡ some ref) × (resolver.get ref done.2 ≡ some value)
  unfolding persist_secrets
  persisted_resolves tenant scope split st name value good distinct found =
      each-Resolves tenant scope split.secret_values [] st name value good distinct found
