-- ===== src/Outbox/DedupKey.antt =====
-- `compute_dedup_key` of app/collection/outbox.py. `sha256` is the hexadecimal digest of the
-- UTF-8 bytes, which `hashlib` computes.
use Prim.Native.String.{◌++◌}
use threatforge.Common.{ℕ, String, List, [], ◌∷◌, decimal}

-- `"|".join(parts)`
unfoldable pub join_bar : List String → String
join_bar [] = ""
join_bar (s ∷ []) = s
join_bar (s ∷ t ∷ parts) = s ++ ("|" ++ join_bar (t ∷ parts))

unfoldable pub compute_dedup_key : (String → String) → ℕ → ℕ → ℕ → String → String → String
unfolding decimal join_bar
compute_dedup_key sha256 tenant finding channel template version =
    sha256 (
      join_bar
        ("v1" ∷ decimal tenant ∷ decimal finding ∷ decimal channel ∷ template ∷ version ∷ []))
