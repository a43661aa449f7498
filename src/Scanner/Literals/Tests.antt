-- ===== src/Scanner/Literals/Tests.antt =====
-- The tokens of concrete regexes.
use promptshield_beta.Scanner.Literals.{extract_tokens, cache_key, is_meta, is_token_char, ◌∷◌}
use promptshield_beta.Scanner.Literals.Tokens.{AreTokens}
use promptshield_beta.Base.Text.{bytes, same}
use promptshield_beta.Scanner.Literals.Extract.{NoRepeats, extract_tokens-AreTokens}
use promptshield_beta.Base.{◌≡◌, [], ◌++◌, refl}

two_tokens : extract_tokens 3 (bytes "(sk-Live|sk-live)x[0-9]") ≡ bytes "sk-live" ∷ []
unfolding extract_tokens is_meta is_token_char same
two_tokens = refl

-- The backslash of an escape stays in the token before it.
escaped_token :
    extract_tokens 3 (bytes "abc" ++ b'\\' ∷ bytes "d+") ≡ (bytes "abc" ++ b'\\' ∷ []) ∷ []
unfolding extract_tokens is_meta is_token_char
escaped_token = refl

-- A regex may match without the token that it gives.
optional_token : extract_tokens 3 (bytes "(abcd)?x") ≡ bytes "abcd" ∷ []
unfolding extract_tokens is_meta is_token_char
optional_token = refl

-- Two calls of compileRegex that differ share one key.
shared_key : cache_key (bytes "a") (bytes "x" ∷ []) ≡ cache_key (bytes "a::x,") []
unfolding cache_key
shared_key = refl

extract_tokens-AreTokens_example :
    AreTokens 3 (extract_tokens 3 (bytes "(sk-Live|sk-live)x[0-9]"))
    × NoRepeats (extract_tokens 3 (bytes "(sk-Live|sk-live)x[0-9]"))
extract_tokens-AreTokens_example = extract_tokens-AreTokens 3 (bytes "(sk-Live|sk-live)x[0-9]")
