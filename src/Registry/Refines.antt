-- ===== src/Registry/Refines.antt =====
-- A registry is a finite map from cleaned names: the calls on the dict, against the same calls on a
-- function from names, which forgets the order of the entries.
use threatforge.Common.{
  String, ◌≡◌, refl, ap, ◌∙◌, Bool, not, ◌&&◌, Option, none, some, List, [], ◌∷◌, Result, ok, err,
  inl, inr, is_some, str_eq, Bool-cases, if◌then◌else◌,
}
use threatforge.Models.{Dict, lookup, insert, without, lookup-insert, lookup-without}
use threatforge.Registry.{
  RegistryError, empty_name, already_registered, register, unregister, get, require, required,
}

pub data Call (T : Type 0) : Type 0 where
  call_register : String → T → Bool → Call T
  call_unregister : String → Call T
  call_require : String → Call T

module _ (clean : String → String) {T : Type 0} where
  abbrev answered : Result RegistryError T → Result RegistryError (Option T)
  answered (ok impl) = ok (some impl)
  answered (err e) = err e

  -- What a call answers, and the registry then; `unregister` answers nothing.
  abbrev pub call : Call T → Dict T → Result RegistryError (Option T) × Dict T
  call (call_register name impl replace) items = (
    answered (register clean name impl replace items).0,
    (register clean name impl replace items).1,
  )
  call (call_unregister name) items = (ok none, unregister clean name items)
  call (call_require name) items = (answered (require clean name items), items)

  abbrev pub run : List (Call T) → Dict T → List (Result RegistryError (Option T)) × Dict T
  run [] items = ([], items)
  run (c ∷ calls) items =
      ((call c items).0 ∷ (run calls (call c items).1).0, (run calls (call c items).1).1)

  -- The map with another value at one name.
  abbrev pub changed : String → Option T → (String → Option T) → String → Option T
  changed key o f k = if str_eq key k then o else f k

  -- A registration is refused for the empty name, and for a name that is taken unless it replaces.
  abbrev pub map_call :
      Call T → (String → Option T) → Result RegistryError (Option T) × (String → Option T)
  map_call (call_register name impl replace) f =
      if str_eq (clean name) ""
      then (err empty_name, f)
      else if is_some (f (clean name)) && not replace
      then (err already_registered, f)
      else (ok (some impl), changed (clean name) (some impl) f)
  map_call (call_unregister name) f = (ok none, changed (clean name) none f)
  map_call (call_require name) f = (answered (required clean (f (clean name))), f)

  abbrev pub map_run :
      List (Call T)
      → (String → Option T)
      → List (Result RegistryError (Option T)) × (String → Option T)
  map_run [] f = ([], f)
  map_run (c ∷ calls) f =
      ((map_call c f).0 ∷ (map_run calls (map_call c f).1).0, (map_run calls (map_call c f).1).1)

  -- The dict stands for the map.
  abbrev pub Represents : Dict T → (String → Option T) → Type 0
  Represents items f = (k : String) → lookup k items ≡ f k

  changed-Represents :
      (key : String) (impl : T) (items : Dict T) (f : String → Option T)
      → Represents items f
      → Represents (insert key impl items) (changed key (some impl) f)
  changed-Represents key impl items f h k =
      lookup-insert key k impl items ∙ ap (λ o. if str_eq key k then some impl else o) (h k)

  removed-Represents :
      (key : String) (items : Dict T) (f : String → Option T)
      → Represents items f
      → Represents (without key items) (changed key none f)
  removed-Represents key items f h k =
      lookup-without key k items ∙ ap (λ o. if str_eq key k then none else o) (h k)

  Refined :
      Result RegistryError (Option T) × Dict T
      → Result RegistryError (Option T) × (String → Option T)
      → Type 0
  Refined r s = (r.0 ≡ s.0) × Represents r.1 s.1

  call_refines :
      (c : Call T) (items : Dict T) (f : String → Option T)
      → Represents items f
      → Refined (call c items) (map_call c f)
  unfolding register unregister get require Refined
  call_refines (call_unregister name) items f h = (refl, removed-Represents (clean name) items f h)
  call_refines (call_require name) items f h =
      (ap (λ o. answered (required clean o)) (h (clean name)), h)
  call_refines (call_register name impl replace) items f h =
      elim (Bool-cases (str_eq (clean name) "")) [
        | inl empty ↦ rw (empty) (refl, h)
        | inr there ↦ rw (there) (
            rw (h (clean name)) (elim (Bool-cases (is_some (f (clean name)) && not replace)) [
              | inl taken ↦ rw (taken) (refl, h)
              | inr free ↦ rw (free) (refl, changed-Represents (clean name) impl items f h)
            ]))
      ]

  -- Any sequence of calls on a registry answers as it does on the finite map that the registry stands
  -- for, and leaves a registry that stands for the map then: registering writes one name unless it is
  -- empty or taken, unregistering clears one, and no other name is touched.
  pub run_refines :
      (calls : List (Call T)) (items : Dict T) (f : String → Option T)
      → Represents items f
      → ((run calls items).0 ≡ (map_run calls f).0)
        × Represents (run calls items).1 (map_run calls f).1
  unfolding Refined
  run_refines [] items f h = (refl, h)
  run_refines (c ∷ calls) items f h =
      let one = call_refines c items f h in
      let rest = run_refines calls (call c items).1 (map_call c f).1 one.1 in
      (
        ap (λ a. a ∷ (run calls (call c items).1).0) one.0
            ∙ ap (λ more. (map_call c f).0 ∷ more) rest.0,
        rest.1,
      )
