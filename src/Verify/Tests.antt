-- ===== src/Verify/Tests.antt =====
-- Messages that are recognised, and the theorems at them.
use threatforge.Common.{ℕ, ◌≡◌, refl, Bool, true, false, none, some, arith}
use threatforge.Verify.{
  is_token, is_word, starts_word, after_prefix, group, match_here, search_from, parse_verify_nonce,
}
use threatforge.Verify.Nonce.{
  AllTokens, append_text, verify_message, parse-verify_message, parse_drops_dash,
}

abbrev narrow : ℕ → Bool
narrow c = false

search_run : parse_verify_nonce narrow (some "see TF-VERIFY-abc_1234-, thanks") ≡ some "abc_1234"
unfolding parse_verify_nonce search_from match_here after_prefix group starts_word is_word is_token
search_run = refl

short_run : parse_verify_nonce narrow (some "TF-VERIFY-abc") ≡ none
unfolding parse_verify_nonce search_from match_here after_prefix group starts_word is_word is_token
short_run = refl

inner_run : parse_verify_nonce narrow (some "xTF-VERIFY-abcdefgh") ≡ none
unfolding parse_verify_nonce search_from match_here after_prefix group starts_word is_word is_token
inner_run = refl

sample_tokens : AllTokens "abc_1234"
unfolding is_token
sample_tokens = (refl, (refl, (refl, (refl, (refl, (refl, (refl, (refl, tt))))))))

sample_ends : is_word narrow 52 ≡ true
unfolding is_word
sample_ends = refl

parse-verify_message_example :
    parse_verify_nonce narrow (some (verify_message "abc_1234")) ≡ some "abc_1234"
parse-verify_message_example =
    parse-verify_message narrow "abc_1234" sample_tokens (omega arith) (omega arith) sample_ends

parse_drops_dash_example :
    parse_verify_nonce narrow (some (verify_message (append_text "abc_1234" "-"))) ≡ some "abc_1234"
parse_drops_dash_example =
    parse_drops_dash narrow "abc_1234" sample_tokens (omega arith) (omega arith) sample_ends
