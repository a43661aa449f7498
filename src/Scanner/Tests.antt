-- ===== src/Scanner/Tests.antt =====
-- The verifiers at concrete texts.
use promptshield_beta.Base.{
  ℕ, List, length, Bool, if◌then◌else◌, ◌≡◌, leb, ◌++◌, true, ◌&&◌, ◌+◌, ◌↔◌, refl, ◌||◌, ◌-◌, ◌∷◌,
  ◌≤◌, [], false, drop, arith, take, ◌%◌, some, none, inl,
}
use promptshield_beta.Base.Text.{Str, bytes, same}
use promptshield_beta.Scanner.Verifiers.{
  luhn_check, all_bytes, iban_valid, normalize, luhn_loop, digits_of, luhn_term, is_separator,
}
use promptshield_beta.Scanner.Verifiers.Iban.{is_ascii, is_alnum, iban_number, iban_valid_lem}
use promptshield_beta.Scanner.Verifiers.Luhn.{luhn_check-detects}
use promptshield_beta.Scanner.Evaluate.{CompiledRule, Scanner, State, is_seen, Violation}
use promptshield_beta.Scanner.Evaluate.Seen.{OneEach, evaluate_line-OneEach}
use promptshield_beta.Scanner.Evaluate.Keywords.{eval_keywords}
use promptshield_beta.Base.Int.{pos}
use promptshield_beta.Scanner.Evaluate.Regexes.{evaluate_line}
use promptshield_beta.Scanner.Evaluate.{full}
use promptshield_beta.Scanner.Evaluate.Walk.{Has}
use promptshield_beta.Scanner.Evaluate.Hits.{eval_keywords-any_hit}
use promptshield_beta.Scanner.Evaluate.LongLines.{is_covered, chunks, chunk_end, chunks-covered}
use promptshield_beta.Scanner.Evaluate.Sound.{AllOf, evaluate_line-appends}

-- The tables of package unicode on ASCII.
abbrev pub is_ascii_digit : ℕ → Bool
is_ascii_digit r = leb b'0' r && leb r b'9'

abbrev pub is_ascii_letter : ℕ → Bool
is_ascii_letter r = leb b'A' r && leb r b'Z' || leb b'a' r && leb r b'z'

abbrev pub ascii_upper : ℕ → ℕ
ascii_upper r = if leb b'a' r && leb r b'z' then r - 32 else r

abbrev iban : Str
iban = bytes "GB82 WEST 1234 5698 7654 32"

abbrev normalized : List ℕ
normalized = normalize is_ascii_letter ascii_upper iban

accepted : luhn_check is_ascii_digit (bytes "453201511283036" ++ (b'0' + 6) ∷ []) ≡ true
unfolding luhn_check luhn_loop luhn_term digits_of
accepted = refl

normalized-ascii : all_bytes is_ascii normalized ≡ true
unfolding all_bytes is_ascii normalize is_separator
normalized-ascii = refl

luhn_check-detects_example :
    luhn_check is_ascii_digit (bytes "453201511283036" ++ (b'0' + 7) ∷ []) ≡ false
luhn_check-detects_example =
    luhn_check-detects is_ascii_digit (λ r lo hi. ground (arith, lo, hi)) (bytes "453201511283036")
      [] 6 7 (omega arith) (omega arith) (omega arith) accepted

iban_valid_lem_example : (iban_valid is_ascii_digit is_ascii_letter ascii_upper iban ≡ true) ↔ (
    15 ≤ length normalized
    × length normalized ≤ 34
    × (all_bytes is_alnum normalized ≡ true)
    × (iban_number (drop 4 normalized ++ take 4 normalized) 0 % 97 ≡ 1))
iban_valid_lem_example =
    iban_valid_lem is_ascii_digit is_ascii_letter ascii_upper (λ r h. refl) iban normalized-ascii

-- A rule of level 1 with one keyword.
abbrev pub keyword_rule : Str → Str → CompiledRule
keyword_rule id kw = record {
  id = id;
  message = bytes "rule violation";
  severity = bytes "HIGH";
  category = [];
  level = pos 1;
  keywords = kw ∷ [];
  regexes = [];
  verifiers = [];
  semantic = none;
  fallback_regexes = [];
  when = none;
  unless = none;
  timeout_ms = pos 0;
  require_all = false;
  case_sensitive = false;
  whole_word = false;
  literal_tokens = [];
  response = none;
  fallback_action = [];
  cache_enabled = false;
  cache_ttl = pos 0;
  cache_max_entries = pos 0;
}

-- A scanner of two rules whose matcher finds the keyword of the first at the line's start.
abbrev pub two_rules : Scanner
two_rules = record {
  compiled = keyword_rule (bytes "a") (bytes "foo") ∷ keyword_rule (bytes "b") (bytes "bar") ∷ [];
  first_match = false;
  max_line_for_regex = pos 0;
  buffer_size = 4096;
  context = none;
  aho = some (λ text. (bytes "foo", 0) ∷ []);
  token_aho = [];
  find_first = λ rx text. none;
  find_all = λ rx text. [];
  is_digit = is_ascii_digit;
  is_letter = is_ascii_letter;
  to_upper = ascii_upper;
  runes = λ text. text;
  semantic = λ cr text col. (false, col);
  to_lower = λ text. text;
  equal_fold = λ a b. same a b;
}

abbrev fresh : State
fresh = record {
  violations = [];
  seen = [];
  regex_attempts = 0;
  regex_skipped = 0;
  semantic_attempts = 0;
  semantic_skipped = 0;
}

evaluate_line-OneEach_example :
    OneEach
      (evaluate_line two_rules (bytes "foo") 1 fresh).0.violations
      (evaluate_line two_rules (bytes "foo") 1 fresh).0.seen
evaluate_line-OneEach_example = evaluate_line-OneEach two_rules (bytes "foo") 1 fresh (refl, tt)

-- A rule with the keyword "baz" at the second hit of a matcher with other rules' keywords.
eval_keywords-any_hit_example :
    (new : List Violation) × ((eval_keywords false
        (some ((bytes "foo", 0) ∷ (bytes "bar", 4) ∷ []))
        (keyword_rule (bytes "b") (bytes "baz"))
        (bytes "foo bar")
        (bytes "foo bar")
        1
        fresh).0.violations
      ≡ [] ++ new)
    × Has (full (keyword_rule (bytes "b") (bytes "baz")) 1 5) new
    × ((eval_keywords false
          (some ((bytes "foo", 0) ∷ (bytes "bar", 4) ∷ []))
          (keyword_rule (bytes "b") (bytes "baz"))
          (bytes "foo bar")
          (bytes "foo bar")
          1
          fresh).1
        ≡ true)
eval_keywords-any_hit_example =
    eval_keywords-any_hit false (keyword_rule (bytes "b") (bytes "baz")) (bytes "foo bar")
      (bytes "foo bar") 1 (bytes "bar") 4 ((bytes "foo", 0) ∷ []) [] fresh (inl refl) refl refl refl
      (unfold is_seen in refl)

-- A line of 12 bytes in chunks of 10 that overlap by 5: the 4 bytes from 8 on lie in none.
missed_at_the_end : is_covered (chunks 12 10 5 12 0) 8 4 ≡ false
unfolding is_covered chunks chunk_end
missed_at_the_end = refl

chunks-covered_example : is_covered (chunks 40 10 5 40 0) 8 6 ≡ true
chunks-covered_example = chunks-covered 10 5 40 8 6 (omega arith) (omega arith) (omega arith)

evaluate_line-appends_example :
    (new : List Violation) × ((evaluate_line two_rules (bytes "foo") 1 fresh).0.violations
      ≡ [] ++ new)
    × AllOf two_rules 1 new
evaluate_line-appends_example = evaluate_line-appends two_rules (bytes "foo") 1 fresh
