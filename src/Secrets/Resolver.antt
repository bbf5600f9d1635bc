-- ===== src/Secrets/Resolver.antt =====
-- The resolvers of app/collection/secrets.py, and the calls that go through them.
use threatforge.Common.{
  ℕ, suc, String, Bool, not, ◌||◌, Option, none, some, [], ◌∷◌, ok, err, ltb, str_eq, take_text,
  concat, decimal, if◌then◌else◌,
}
use threatforge.Models.{Dict, lookup, insert, without}
use threatforge.Verify.{after_prefix}
use threatforge.Secrets.Urls.{strip}
use threatforge.Secrets.Classify.{ChannelSecretSplit}
use threatforge.Secrets.References.{validate_opaque_ref, env_prefix, file_prefix}

-- The protocol of a resolver over its own state.
pub record SecretResolver (S : Type 0) : Type 0 where
  pub put : ℕ → String → String → String → S → String × S
  pub get : String → S → Option String
  pub delete : String → S → S

-- `NullSecretResolver`
abbrev pub null_resolver : (String → String) → SecretResolver (Unit {0})
null_resolver sha256 = record {
  put = λ tenant scope name value st. (
    concat (
        "secretref://null/"
        ∷ decimal tenant
        ∷ "/"
        ∷ scope
        ∷ "/"
        ∷ name
        ∷ "/"
        ∷ take_text 12 (sha256 value)
        ∷ []),
    st,
  );
  get = λ ref st. none;
  delete = λ ref st. st;
}

-- The state of `InMemorySecretResolver`
pub record MemoryStore : Type 0 where
  pub store : Dict String
  pub issued : ℕ

abbrev pub memory_ref : ℕ → String → String → ℕ → String
memory_ref tenant scope name n =
    concat ("secretref://mem/" ∷ decimal tenant ∷ "/" ∷ scope ∷ "/" ∷ name ∷ "/" ∷ decimal n ∷ [])

abbrev pub memory_put : ℕ → String → String → String → MemoryStore → String × MemoryStore
memory_put tenant scope name value st =
    let ref = memory_ref tenant scope name (suc st.issued) in
    (ref, record { store = insert ref value st.store; issued = suc st.issued })

abbrev pub memory_resolver : SecretResolver MemoryStore
memory_resolver = record {
  put = memory_put;
  get = λ ref st. lookup ref st.store;
  delete = λ ref st. record st { store = without ref st.store };
}

-- A file of the directory of secrets, as the file system shows it. The text is none where reading
-- it raises.
pub record SecretFile : Type 0 where
  pub is_symlink : Bool
  -- the resolved path stands in that directory
  pub is_inside : Bool
  pub is_file : Bool
  pub size : ℕ
  pub text : Option String

-- The environment of the process and the files.
pub record SecretWorld : Type 0 where
  pub is_space : ℕ → Bool
  pub getenv : String → Option String
  pub file : String → SecretFile

-- `value or None`
abbrev pub or_none : Option String → Option String
or_none none = none
or_none (some t) = if str_eq t "" then none else some t

abbrev file_text : (ℕ → Bool) → Option String → Option String
file_text space none = none
file_text space (some t) = or_none (some (strip space t))

unfoldable pub read_secret_file : (ℕ → Bool) → SecretFile → Option String
read_secret_file space f =
    if f.is_symlink
    then none
    else if not f.is_inside || not f.is_file
    then none
    else if ltb 8192 f.size
    then none
    else file_text space f.text

module _ {S : Type 0} (resolver : SecretResolver S) where
  -- The loop over the values, with the references so far.
  unfoldable pub persist_each : ℕ → String → Dict String → Dict String → S → Dict String × S
  persist_each tenant scope [] refs st = (refs, st)
  persist_each tenant scope ((name, value) ∷ values) refs st =
      let put = resolver.put tenant scope name value st in
      persist_each tenant scope values (insert name put.0 refs) put.1

  -- The references, the split without its values, and the resolver's state.
  unfoldable pub persist_secrets :
      ℕ → String → ChannelSecretSplit → S → Dict String × ChannelSecretSplit × S
  unfolding persist_each
  persist_secrets tenant scope split st =
      let done = persist_each tenant scope split.secret_values [] st in
      (done.0, record split { secret_values = [] }, done.1)

  module _ (world : SecretWorld) where
    abbrev pub when_valid : String → Option String → Option String
    when_valid value found = elim (validate_opaque_ref world.is_space value) [
      | ok _ ↦ found
      | err _ ↦ none
    ]

    abbrev pub resolve_file : String → S → Option String → Option String
    resolve_file value st none = resolver.get value st
    resolve_file value st (some name) =
        when_valid value (read_secret_file world.is_space (world.file name))

    abbrev pub resolve_value : String → S → Option String → Option String
    resolve_value value st none = resolve_file value st (after_prefix file_prefix value)
    resolve_value value st (some name) = when_valid value (or_none (world.getenv name))

    unfoldable pub resolve_opaque_ref : String → S → Option String
    resolve_opaque_ref ref st =
        resolve_value (strip world.is_space ref) st
          (after_prefix env_prefix (strip world.is_space ref))

    abbrev pub resolve_ref : Option String → S → Option String
    resolve_ref none st = none
    resolve_ref (some ref) st = if str_eq ref "" then none else resolve_opaque_ref ref st

    unfoldable pub resolve_secret : Dict String → String → S → Option String
    resolve_secret refs name st = resolve_ref (lookup name refs) st
