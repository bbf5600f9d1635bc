-- ===== src/Typosquat/Tests.antt =====
-- Runs of the generator, and the theorem at a brand's domain.
use threatforge.Common.{ℕ, ◌≤◌, String, ◌≡◌, refl, Bool, All, length, ◌==◌}
use threatforge.Secrets.{strip, strip_end, drop_while}
use threatforge.Typosquat.{split_domain, split_at, before_suffix, generate, priority_tlds}
use threatforge.Typosquat.Candidates.{IsDistinct, IsLookalike, generate_bounds}

abbrev is_blank : ℕ → Bool
is_blank c = c == 32

abbrev same : String → String
same t = t

-- The longer of two endings is the domain's.
parts : split_domain is_blank same "bank.com.br " ≡ ("bank", "com.br")
unfolding split_domain strip strip_end drop_while split_at before_suffix
parts = refl

generate_bounds_example :
    (length (generate is_blank same "bank.com.br" 3) ≤ 3)
    × IsDistinct (generate is_blank same "bank.com.br" 3)
    × All
        (IsLookalike
          (split_domain is_blank same "bank.com.br").0
          (priority_tlds (split_domain is_blank same "bank.com.br").1))
        (generate is_blank same "bank.com.br" 3)
generate_bounds_example = generate_bounds is_blank same "bank.com.br" 3
