-- ===== src/Setup/Readable.antt =====
-- `create_connection` and then `resolve_connection_secret` of app/collection/service.py, on the
-- entries of a new connection's payload.
use threatforge.Common.{
  ℕ, String, ◌≡◌, refl, sym, ap, ◌∙◌, subst, Bool, true, false, Option, none, some, List, [], ◌∷◌,
  Result, ok, err, inl, inr, ◌⊎◌, arith, All, All-map, any, str_eq, eq_iff, concat, Bool-cases,
  Result-cases,
}
use threatforge.Models.{
  Time, Json, Dict, Connection, lookup, insert, lookup-insert_other, HasDistinctKeys,
}
use threatforge.Verify.{after_prefix}
use threatforge.Registry.{is_registered}
use threatforge.Secrets.{
  Classifier, ChannelSecretSplit, SecretWorld, ReferenceError, MemoryStore, memory_resolver,
  memory_ref, clean, secret_text, classify_payload, secrets_metadata, persist_secrets,
  resolve_secret, resolve_opaque_ref, starts, validate_opaque_ref,
}
use threatforge.Secrets.Clean.{Held, HasDistinctNames, classify_complete, classify-HasDistinctKeys}
use threatforge.Secrets.Faithful.{persisted_resolves, persisted-Arises}
use threatforge.Secrets.Memory.{memory_faithful, AllIssued, found-Issued}
use threatforge.Setup.{
  CreateError, create_connection, add_submitted, add_connection, pending_connection,
  require_registered_provider, submit_refs, same_name, resolve_connection_secret, opaque_metadata,
}
use threatforge.Setup.Resolve.{IsAsciiFree, strip-memory_ref}

module _ (env : Classifier) where
  -- The caller submits no reference under the cleaned name.
  abbrev pub IsFree : Dict String → String → Type 0
  IsFree submitted name = All (λ e. str_eq (clean env e.0) name ≡ false) submitted

  abbrev Kept : String → Dict String → Result ReferenceError (Dict String × Dict Json) → Type 0
  Kept name refs (err e) = Unit
  Kept name refs (ok held) = lookup name held.0 ≡ lookup name refs

  Kept-step :
      (name : String) (refs refs' : Dict String)
      (r : Result ReferenceError (Dict String × Dict Json))
      → lookup name refs' ≡ lookup name refs
      → Kept name refs' r
      → Kept name refs r
  Kept-step name refs refs' (err e) same h = tt
  Kept-step name refs refs' (ok held) same h = h ∙ same

  submitted-Kept :
      (space : ℕ → Bool) (submitted refs : Dict String) (metadata : Dict Json) (name : String)
      → IsFree submitted name
      → Kept name refs (submit_refs env space submitted refs metadata)
  unfolding submit_refs
  submitted-Kept space [] refs metadata name apart = refl
  submitted-Kept space ((raw_name, raw_ref) ∷ more) refs metadata name apart =
      elim (Result-cases (validate_opaque_ref space raw_ref)) [
        | inl (ref, fine) ↦
            rw (fine, Kept)
              (Kept-step name refs (insert (clean env raw_name) ref refs)
                (submit_refs env space more (insert (clean env raw_name) ref refs)
                  (insert (clean env raw_name) opaque_metadata metadata))
                (lookup-insert_other (clean env raw_name) name ref refs apart.0)
                (submitted-Kept space more (insert (clean env raw_name) ref refs)
                  (insert (clean env raw_name) opaque_metadata metadata) name apart.1))
        | inr (e, wrong) ↦ rw (wrong, Kept) tt
      ]

  module _ (world : SecretWorld) (free : IsAsciiFree world.is_space) where
    -- The entry stands in the row, or its text is resolved through the row's reference.
    abbrev pub CanRead : Connection → MemoryStore → String × Json → Type 0
    CanRead c st (k, v) =
        (lookup k c.config_json ≡ some v)
        ⊎ (resolve_connection_secret env memory_resolver world c (clean env k) st
            ≡ some (secret_text env v))

    resolve-memory_ref :
        (tenant : ℕ) (scope name : String) (n : ℕ) (st : MemoryStore)
        → resolve_opaque_ref memory_resolver world (memory_ref tenant scope name n) st
          ≡ lookup (memory_ref tenant scope name n) st.store
    unfolding resolve_opaque_ref after_prefix
    resolve-memory_ref tenant scope name n st =
        rw (strip-memory_ref world.is_space free tenant scope name n) refl

    not_blank :
        (tenant : ℕ) (scope name : String) (n : ℕ)
        → str_eq (memory_ref tenant scope name n) "" ≡ false
    unfolding starts
    not_blank tenant scope name n = elim (Bool-cases (str_eq (memory_ref tenant scope name n) "")) [
      | inl blank ↦ absurd (
          ground
            (arith, ap (starts (λ _. true)) ((eq_iff (memory_ref tenant scope name n) "").0 blank)))
      | inr there ↦ there
    ]

    resolve-found :
        (refs : Dict String) (st : MemoryStore) (name ref value : String)
        → AllIssued st
        → lookup name refs ≡ some ref
        → lookup ref st.store ≡ some value
        → resolve_secret memory_resolver world refs name st ≡ some value
    unfolding resolve_secret
    resolve-found refs st name ref value good held found =
        let (n, tenant, scope, label, is_ref) =
          found-Issued st.issued st.store ref value good found in
        rw (held) (
          rw (is_ref) (
            rw (not_blank tenant scope label n) (
              resolve-memory_ref tenant scope label n st
              ∙ ap (λ r. lookup r st.store) (sym is_ref)
              ∙ found)))

    module _ (providers : Dict String) (now : Time) (new_id tenant : ℕ) (name : String)
        (payload : Dict Json) (secret_refs : Dict String) (actor : Option String)
        (rows : List Connection) where
      abbrev ReadableAfter : MemoryStore → Result CreateError Connection → Type 0
      ReadableAfter st (err e) = Unit
      ReadableAfter st (ok c) =
          All (λ e. IsFree secret_refs (clean env e.0) → CanRead c st e) payload

      added-Readable :
          (c : Connection) (st : MemoryStore)
          → All (λ e. IsFree secret_refs (clean env e.0) → CanRead c st e) payload
          → ReadableAfter st (add_connection c rows).0
      unfolding add_connection
      added-Readable c st h = elim (Bool-cases (any (same_name c.tenant_id c.name) rows)) [
        | inl taken ↦ rw (taken) tt
        | inr new ↦ rw (new) h
      ]

      -- Where the split of the payload holds an entry, the row and the resolver do.
      readable_entry :
          (split : ChannelSecretSplit) (provider : String) (st : MemoryStore)
          (held : Dict String × Dict Json) (e : String × Json)
          → AllIssued st
          → HasDistinctKeys split.secret_values
          → Held env split e
          → Kept
              (clean env e.0)
              (persist_secrets memory_resolver tenant
                (concat ("connection:" ∷ name ∷ []))
                split
                st).0
              (ok held)
          → CanRead
              (pending_connection env now new_id tenant provider name actor split.config_json held)
              (persist_secrets memory_resolver tenant
                (concat ("connection:" ∷ name ∷ []))
                split
                st).2
              e
      unfolding resolve_connection_secret
      readable_entry split provider st held (k, v) good distinct (inl stored) kept = inl stored
      readable_entry split provider st held (k, v) good distinct (inr secret) kept =
          let scope = concat ("connection:" ∷ name ∷ []) in
          let (ref, under, found) =
            persisted_resolves memory_resolver memory_faithful tenant scope split st (clean env k)
              (secret_text env v) good distinct secret in
          inr (
            resolve-found held.0 (persist_secrets memory_resolver tenant scope split st).2
              (clean env k) ref (secret_text env v)
              (persisted-Arises memory_resolver memory_faithful tenant scope split st good)
              (kept ∙ under) found)

      submitted-Readable :
          (split : ChannelSecretSplit) (provider : String) (st : MemoryStore)
          (r : Result ReferenceError (Dict String × Dict Json))
          → AllIssued st
          → HasDistinctKeys split.secret_values
          → All (Held env split) payload
          → ((k : String)
              → IsFree secret_refs k
              → Kept k
                  (persist_secrets memory_resolver tenant
                    (concat ("connection:" ∷ name ∷ []))
                    split
                    st).0
                  r)
          → ReadableAfter
              (persist_secrets memory_resolver tenant
                (concat ("connection:" ∷ name ∷ []))
                split
                st).2
              (add_submitted env memory_resolver now new_id tenant provider name actor
                split.config_json r rows).0
      submitted-Readable split provider st (err e) good distinct all kept = tt
      submitted-Readable split provider st (ok held) good distinct all kept =
          let after =
            (persist_secrets memory_resolver tenant (concat ("connection:" ∷ name ∷ [])) split
              st).2 in
          added-Readable
            (pending_connection env now new_id tenant provider name actor split.config_json held)
            after
            (All-map payload
              (λ e h untouched.
                readable_entry split provider st held e good distinct h
                  (kept (clean env e.0) untouched))
              all)

      created-Readable :
          (provider : String) (st : MemoryStore)
          → AllIssued st
          → HasDistinctNames env payload
          → let r =
              create_connection env memory_resolver providers now new_id tenant provider name
                payload secret_refs actor rows st in
            ReadableAfter r.2 r.0
      unfolding create_connection require_registered_provider
      created-Readable provider st good distinct =
          let key = clean env provider in
          let split = classify_payload env payload none (some key) in
          let scope = concat ("connection:" ∷ name ∷ []) in
          elim (Bool-cases (is_registered (clean env) key providers)) [
            | inr unknown ↦ rw (unknown) tt
            | inl known ↦ rw (known) (
                submitted-Readable split key st
                  (submit_refs env env.unicode.is_space secret_refs
                    (persist_secrets memory_resolver tenant scope split st).0
                    (secrets_metadata split))
                  good (classify-HasDistinctKeys env payload none (some key))
                  (classify_complete env payload none (some key) distinct)
                  (λ k untouched.
                    submitted-Kept env.unicode.is_space secret_refs
                      (persist_secrets memory_resolver tenant scope split st).0
                      (secrets_metadata split) k untouched))
          ]

      -- A connection that is created with the resolver in memory loses nothing of its payload,
      -- if the cleaned names of the entries differ, every reference in the resolver's store is
      -- one that it issued, and no printable character of ASCII is white space: each entry
      -- stands in `config_json` as it was given, or its text is resolved again through the
      -- reference under its cleaned name, unless the caller submits a reference of that name.
      pub create-resolve_secret :
          (provider : String) (st : MemoryStore) (c : Connection)
          → AllIssued st
          → HasDistinctNames env payload
          → let r =
              create_connection env memory_resolver providers now new_id tenant provider name
                payload secret_refs actor rows st in
            r.0 ≡ ok c → All (λ e. IsFree secret_refs (clean env e.0) → CanRead c r.2 e) payload
      create-resolve_secret provider st c good distinct made =
          let r =
            create_connection env memory_resolver providers now new_id tenant provider name payload
              secret_refs actor rows st in
          subst (ReadableAfter r.2) made (created-Readable provider st good distinct)
