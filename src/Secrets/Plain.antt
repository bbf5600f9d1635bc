-- ===== src/Secrets/Plain.antt =====
-- What a reference that is accepted can name.
use Prim.Native.Char.{code}
use threatforge.Common.{
  ℕ, ◌≤◌, String, ◌≡◌, ◌≢◌, refl, subst, Bool, true, Option, none, some, Result, ok, err, inl, inr,
  ◌⊎◌, arith, is_some, text_length, Bool-cases,
}
use threatforge.Verify.{after_prefix}
use threatforge.Secrets.{
  ReferenceError, strip, starts, all_text, is_file_character, is_file_name, is_env_name, env_prefix,
  file_prefix, checked_ref, checked_file, validate_opaque_ref,
}

abbrev EachCode : (ℕ → Type 0) → String → Type 0
EachCode P String.[] = Unit
EachCode P (String.◌∷◌ c s) = P (code c) × EachCode P s

-- The name of a file in one directory: no slash, no backslash, no character below the printable ones,
-- and no dot at the front.
abbrev pub IsPlainName : String → Type 0
IsPlainName String.[] = ⊥
IsPlainName (String.◌∷◌ c s) =
    (code c ≢ b'.') × EachCode (λ n. (n ≢ b'/') × (n ≢ b'\\') × (33 ≤ n)) (String.◌∷◌ c s)

each-all_text :
    (p : ℕ → Bool) (P : ℕ → Type 0)
    → ((n : ℕ) → p n ≡ true → P n)
    → (s : String) → all_text p s ≡ true
    → EachCode P s
unfolding all_text
each-all_text p P hold String.[] h = tt
each-all_text p P hold (String.◌∷◌ c s) h =
    (hold (code c) (ground (arith, h)), each-all_text p P hold s (ground (arith, h)))

file_name-IsPlainName :
    (name : String) → is_file_name name ≡ true → IsPlainName name × (text_length name ≤ 127)
unfolding is_file_name starts
file_name-IsPlainName String.[] h = absurd (ground (arith, h))
file_name-IsPlainName (String.◌∷◌ c s) h = (
  (
    ground (arith, h),
    each-all_text is_file_character (λ n. (n ≢ b'/') × (n ≢ b'\\') × (33 ≤ n))
        (λ n k. (ground (arith, k), ground (arith, k), ground (arith, k))) (String.◌∷◌ c s)
        (ground (arith, h)),
  ),
  ground (arith, h),
)

-- A variable of the application's namespace, or a plain name of a file.
abbrev pub NamesOne : String → Type 0
NamesOne v =
    ((name rest : String) × (after_prefix env_prefix v ≡ some name)
      × (after_prefix "THREATFORGE_" name ≡ some rest)
      × (text_length name ≤ 128))
    ⊎ ((name : String) × (after_prefix file_prefix v ≡ some name)
        × IsPlainName name
        × (text_length name ≤ 127))

abbrev Plainly : String → Result ReferenceError String → Type 0
Plainly value (err e) = Unit
Plainly value (ok v) = (v ≡ value) × NamesOne v

some-is_some : (o : Option String) → is_some o ≡ true → (s : String) × (o ≡ some s)
some-is_some none h = absurd (ground (arith, h))
some-is_some (some s) h = (s, refl)

file-Plainly :
    (value : String) (o : Option String)
    → after_prefix file_prefix value ≡ o
    → Plainly value (checked_file value o)
file-Plainly value none found = tt
file-Plainly value (some name) found = elim (Bool-cases (is_file_name name)) [
  | inl fine ↦
      let plain = file_name-IsPlainName name fine in
      rw (fine, Plainly) (refl, inr (name, found, plain.0, plain.1))
  | inr wrong ↦ rw (wrong, Plainly) tt
]

env-Plainly :
    (value : String) (o : Option String)
    → after_prefix env_prefix value ≡ o
    → Plainly value (checked_ref value o)
unfolding is_env_name
env-Plainly value none found = file-Plainly value (after_prefix file_prefix value) refl
env-Plainly value (some name) found = elim (Bool-cases (is_env_name name)) [
  | inl fine ↦
      let (rest, within) = some-is_some (after_prefix "THREATFORGE_" name) (ground (arith, fine)) in
      rw (fine, Plainly) (refl, inl (name, rest, found, within, ground (arith, fine)))
  | inr wrong ↦ rw (wrong, Plainly) tt
]

-- A reference that is accepted is the caller's without the white space around it, and names one
-- environment variable of the application's namespace, or one file by a plain name: not hidden, and
-- without a slash or a backslash, so that it names no path.
pub validated_names :
    (space : ℕ → Bool) (ref v : String)
    → validate_opaque_ref space ref ≡ ok v
    → (v ≡ strip space ref) × NamesOne v
unfolding validate_opaque_ref
validated_names space ref v done =
    subst (Plainly (strip space ref)) done
      (env-Plainly (strip space ref) (after_prefix env_prefix (strip space ref)) refl)
