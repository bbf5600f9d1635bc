-- ===== src/Verify/Nonce.antt =====
-- What `parse_verify_nonce` returns, and which messages it recognises.
use Prim.Native.Char.{Char, code}
use threatforge.Common.{
  ℕ, zero, suc, ◌+◌, ◌≤◌, String, ◌≡◌, refl, subst, leb→le, Bool, true, false, Option, none, some,
  inl, inr, arith, leb, text_length, Bool-cases, Option-cases,
}
use threatforge.Verify.{
  is_token, is_word, starts_word, after_prefix, group, match_here, search_from, parse_verify_nonce,
  ends_here, extend,
}

-- Every character is one of [A-Za-z0-9_-].
abbrev pub AllTokens : String → Type 0
AllTokens String.[] = Unit
AllTokens (String.◌∷◌ c s) = (is_token (code c) ≡ true) × AllTokens s

abbrev Grouped : ℕ → ℕ → String → Type 0
Grouped fuel size n = (8 ≤ size + text_length n) × (text_length n ≤ fuel) × AllTokens n

module _ (wide : ℕ → Bool) where
  ends_here-Grouped :
      (fuel size : ℕ) (last : Bool) (s n : String)
      → ends_here wide size last s ≡ some n
      → Grouped fuel size n
  ends_here-Grouped fuel size last s n h = elim (Bool-cases (leb 8 size)) [
    | inl long ↦
        let same : String.[] ≡ n = ground (arith, long) in
        subst (Grouped fuel size) same (omega (arith, leb→le 8 size long), omega arith, tt)
    | inr short ↦ absurd (ground (arith, short))
  ]

  extend-Grouped :
      (fuel size : ℕ) (c : Char) (o here : Option String) (n : String)
      → is_token (code c) ≡ true
      → ((m : String) → o ≡ some m → Grouped fuel (size + 1) m)
      → ((m : String) → here ≡ some m → Grouped (suc fuel) size m)
      → extend c o here ≡ some n
      → Grouped (suc fuel) size n
  extend-Grouped fuel size c none here n tok longer short h = short n h
  extend-Grouped fuel size c (some m) here n tok longer short h =
      let g = longer m refl in
      let same : String.◌∷◌ c m ≡ n = ground arith in
      subst (Grouped (suc fuel) size) same (omega (arith, g.0), omega (arith, g.1), (tok, g.2))

  group_bounds :
      (fuel size : ℕ) (last : Bool) (s n : String)
      → group wide fuel size last s ≡ some n
      → Grouped fuel size n
  unfolding group
  group_bounds zero size last s n h = ends_here-Grouped zero size last s n h
  group_bounds (suc fuel) size last String.[] n h =
      ends_here-Grouped (suc fuel) size last String.[] n h
  group_bounds (suc fuel) size last (String.◌∷◌ c s) n h = elim (Bool-cases (is_token (code c))) [
    | inl tok ↦
        extend-Grouped fuel size c (group wide fuel (size + 1) (is_word wide (code c)) s)
          (ends_here wide size last (String.◌∷◌ c s)) n tok
          (λ m e. group_bounds fuel (size + 1) (is_word wide (code c)) s m e)
          (λ m e. ends_here-Grouped (suc fuel) size last (String.◌∷◌ c s) m e) (rw tok at h)
    | inr stop ↦ ends_here-Grouped (suc fuel) size last (String.◌∷◌ c s) n (rw stop at h)
  ]

  match_bounds : (last : Bool) (s n : String) → match_here wide last s ≡ some n → Grouped 128 0 n
  unfolding match_here
  match_bounds last s n h = elim (Option-cases (after_prefix "TF-VERIFY-" s)) [
    | inl gone ↦ absurd (ground (arith, gone))
    | inr (rest, e) ↦ group_bounds 128 0 false rest n (ground (arith, e))
  ]

  search_bounds : (last : Bool) (s n : String) → search_from wide last s ≡ some n → Grouped 128 0 n
  unfolding search_from
  search_bounds last String.[] n h = match_bounds last String.[] n h
  search_bounds last (String.◌∷◌ c s) n h =
      elim (Option-cases (match_here wide last (String.◌∷◌ c s))) [
        | inl later ↦ search_bounds (is_word wide (code c)) s n (ground (arith, later))
        | inr (m, here) ↦ match_bounds last (String.◌∷◌ c s) n (ground (arith, here))
      ]

-- A recognised nonce has 8 to 128 characters, each of them a letter, a digit, `_` or `-`.
pub nonce_bounds :
    (wide : ℕ → Bool) (text : Option String) (n : String)
    → parse_verify_nonce wide text ≡ some n
    → (8 ≤ text_length n) × (text_length n ≤ 128) × AllTokens n
unfolding parse_verify_nonce
nonce_bounds wide none n h = absurd (ground arith)
nonce_bounds wide (some text) n h =
    let g = search_bounds wide false text n h in (omega (arith, g.0), g.1, g.2)

-- The text `s` followed by `t`.
unfoldable pub append_text : String → String → String
append_text String.[] t = t
append_text (String.◌∷◌ c s) t = String.◌∷◌ c (append_text s t)

pub text_length-append_text :
    (s t : String) → text_length (append_text s t) ≡ text_length s + text_length t
unfolding append_text
text_length-append_text String.[] t = omega arith
text_length-append_text (String.◌∷◌ c s) t = omega (arith, text_length-append_text s t)

-- Whether the last character of a text is a word character; `last` is that of what stands before.
abbrev pub ends_word : (ℕ → Bool) → Bool → String → Bool
ends_word wide last String.[] = last
ends_word wide last (String.◌∷◌ c s) = ends_word wide (is_word wide (code c)) s

module _ (wide : ℕ → Bool) where
  -- At the end of the text, or before a dash that may or may not be taken, a group of token
  -- characters that ends with a word character is taken whole.
  group_whole :
      (fuel size : ℕ) (last : Bool) (n : String)
      → AllTokens n
      → 8 ≤ size + text_length n
      → text_length n ≤ fuel
      → ends_word wide last n ≡ true
      → group wide fuel size last n ≡ some n
  unfolding group starts_word
  group_whole zero size last String.[] tok long short word = ground arith
  group_whole zero size last (String.◌∷◌ c n) tok long short word = absurd (omega arith)
  group_whole (suc fuel) size last String.[] tok long short word = ground arith
  group_whole (suc fuel) size last (String.◌∷◌ c n) tok long short word =
      ground (arith, group_whole fuel (size + 1) (is_word wide (code c)) n tok.1)

  group_dash :
      (fuel size : ℕ) (last : Bool) (n : String)
      → AllTokens n
      → 8 ≤ size + text_length n
      → text_length n ≤ fuel
      → ends_word wide last n ≡ true
      → group wide fuel size last (append_text n "-") ≡ some n
  unfolding group starts_word append_text is_token is_word
  group_dash zero size last String.[] tok long short word = ground arith
  group_dash zero size last (String.◌∷◌ c n) tok long short word = absurd (omega arith)
  group_dash (suc zero) size last String.[] tok long short word = ground arith
  group_dash (suc (suc fuel)) size last String.[] tok long short word = ground arith
  group_dash (suc fuel) size last (String.◌∷◌ c n) tok long short word =
      ground (arith, group_dash fuel (size + 1) (is_word wide (code c)) n tok.1)

-- The message that carries a nonce.
abbrev pub verify_message : String → String
verify_message n = append_text "TF-VERIFY-" n

parse_message :
    (wide : ℕ → Bool) (s n : String)
    → group wide 128 0 false s ≡ some n
    → parse_verify_nonce wide (some (verify_message s)) ≡ some n
unfolding parse_verify_nonce search_from match_here append_text after_prefix starts_word is_word
parse_message wide s n h = ground (arith, h)

-- A message with a nonce of 8 to 128 token characters that ends with a letter, a digit or `_` is
-- recognised, and the nonce comes back whole.
pub parse-verify_message :
    (wide : ℕ → Bool) (n : String)
    → AllTokens n
    → 8 ≤ text_length n
    → text_length n ≤ 128
    → ends_word wide false n ≡ true
    → parse_verify_nonce wide (some (verify_message n)) ≡ some n
parse-verify_message wide n tok long short word =
    parse_message wide n n (group_whole wide 128 0 false n tok (omega arith) short word)

-- Where a nonce of 8 to 128 token characters that ends with a letter, a digit or `_` is followed by one
-- dash, the message that carries both is recognised, but with the nonce cut before that dash.
pub parse_drops_dash :
    (wide : ℕ → Bool) (n : String)
    → AllTokens n
    → 8 ≤ text_length n
    → text_length n ≤ 128
    → ends_word wide false n ≡ true
    → parse_verify_nonce wide (some (verify_message (append_text n "-"))) ≡ some n
parse_drops_dash wide n tok long short word =
    parse_message wide (append_text n "-") n
      (group_dash wide 128 0 false n tok (omega arith) short word)
