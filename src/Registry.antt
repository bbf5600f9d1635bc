-- ===== src/Registry.antt =====
-- app/collection/registry.py: the registries of providers, classifiers, correlators and alert channels
-- that are dicts of the process. `clean` is `str(name).strip().lower()`.
pub mod Refines
mod Tests
use Prim.Native.String.{compare}
use text.Mathlib.Text.{is_le}
use threatforge.Common.{
  ℕ, String, Bool, true, false, not, ◌&&◌, Option, none, some, List, [], ◌∷◌, Result, ok, err,
  length, is_some, map, str_eq, if◌then◌else◌,
}
use threatforge.Models.{Dict, lookup, insert, without}

pub data RegistryError : Type 0 where
  empty_name already_registered not_registered : RegistryError

abbrev pub text_leb : String → String → Bool
text_leb a b = is_le (compare a b)

unfoldable pub insert_text : String → List String → List String
insert_text t [] = t ∷ []
insert_text t (u ∷ texts) =
    let rest = insert_text t texts in if text_leb t u then t ∷ u ∷ texts else u ∷ rest

-- `sorted` of texts.
unfoldable pub sorted : List String → List String
sorted [] = []
sorted (t ∷ texts) = insert_text t (sorted texts)

unfoldable pub keys {ℓ} : {V : Type ℓ} → Dict V → List String
keys [] = []
keys ((k, v) ∷ d) = k ∷ keys d

module _ {ℓ} (clean : String → String) {T : Type ℓ} where
  abbrev pub register_at : String → T → Bool → Dict T → Result RegistryError T × Dict T
  register_at key impl replace items =
      if str_eq key ""
      then (err empty_name, items)
      else if is_some (lookup key items) && not replace
      then (err already_registered, items)
      else (ok impl, insert key impl items)

  unfoldable pub register : String → T → Bool → Dict T → Result RegistryError T × Dict T
  register name impl replace items = register_at (clean name) impl replace items

  unfoldable pub unregister : String → Dict T → Dict T
  unregister name items = without (clean name) items

  unfoldable pub get : String → Dict T → Option T
  get name items = lookup (clean name) items

  abbrev pub required : Option T → Result RegistryError T
  required none = err not_registered
  required (some impl) = ok impl

  unfoldable pub require : String → Dict T → Result RegistryError T
  unfolding get
  require name items = required (get name items)

  -- `name in registry`
  unfoldable pub is_registered : String → Dict T → Bool
  unfolding get
  is_registered name items = is_some (get name items)

unfoldable pub names {ℓ} : {T : Type ℓ} → Dict T → List String
names items = sorted (keys items)

abbrev pub size {ℓ} : {T : Type ℓ} → Dict T → ℕ
size items = length items

pub record Registries (T : Type 0) : Type 0 where
  pub providers : Dict T
  pub classifiers : Dict T
  pub correlators : Dict T
  pub alert_channels : Dict String

module _ (clean : String → String) where
  abbrev register_each : List String → Dict String → Dict String
  register_each [] items = items
  register_each (name ∷ more) items = register_each more (register clean name name true items).1

  -- `_register_builtin_alert_channels`
  unfoldable pub register_builtins : Dict String → Dict String
  unfolding register
  register_builtins items = register_each ("telegram" ∷ "webhook" ∷ "email" ∷ "smtp" ∷ []) items

  unfoldable pub reset_all : {T : Type 0} → Registries T → Registries T
  unfolding register_builtins
  reset_all regs = record {
    providers = [];
    classifiers = [];
    correlators = [];
    alert_channels = register_builtins [];
  }
