-- ===== src/Registry/Tests.antt =====
-- Runs of the registries.
use threatforge.Common.{String, ◌≡◌, refl, false, Option, none, some, List, [], ◌∷◌, ok, err}
use threatforge.Models.{lookup, insert, without}
use threatforge.Registry.{
  already_registered, not_registered, register, unregister, get, require, names, sorted,
  insert_text, keys, register_builtins,
}
use threatforge.Registry.Refines.{
  Call, call_register, call_unregister, call_require, run, map_run, Represents, run_refines,
}

abbrev same : String → String
same t = t

abbrev builtins_sorted : List String
builtins_sorted = "email" ∷ "smtp" ∷ "telegram" ∷ "webhook" ∷ []

builtin_names : names (register_builtins same []) ≡ builtins_sorted
unfolding names register_builtins register insert lookup sorted insert_text keys
builtin_names = refl

abbrev calls : List (Call String)
calls =
    call_register "telegram" "a" false
    ∷ call_register "telegram" "b" false
    ∷ call_unregister "telegram"
    ∷ call_require "telegram"
    ∷ []

abbrev nothing : String → Option String
nothing k = none

answers :
    (run same calls []).0
    ≡ ok (some "a") ∷ err already_registered ∷ ok none ∷ err not_registered ∷ []
unfolding register unregister get require insert lookup without
answers = refl

empty-Represents : Represents same [] nothing
unfolding lookup
empty-Represents k = refl

run_refines_example :
    ((run same calls []).0 ≡ (map_run same calls nothing).0)
    × Represents same (run same calls []).1 (map_run same calls nothing).1
run_refines_example = run_refines same calls [] nothing empty-Represents
