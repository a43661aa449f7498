-- ===== src/Scanner/Evaluate.antt =====
-- internal/scanner/evaluate.go, with the conditions of internal/scanner/rule_eval.go: the rules at
-- one line. A line is the list of its bytes, line numbers and columns are from 1, and what the
-- functions write is one state: the violations, the keys seen, and the counters.
pub mod Keywords
pub mod Regexes
pub mod Holds
pub mod Lines
pub mod Seen
pub mod Sound
pub mod Keys
pub mod Walk
pub mod Hits
pub mod LongLines
use promptshield_beta.Base.Text.{Str, same}
use promptshield_beta.Base.{
  List, ℕ, Bool, leb, ◌==◌, Option, false, [], if◌then◌else◌, ◌++◌, none, ◌&&◌, ◌||◌, ◌∷◌, some,
  not, take, true, length, get_or, ◌-◌, ◌+◌, suc,
}
use promptshield_beta.Rules.Types.{Condition, Response, Semantic}
use promptshield_beta.Base.Int.{ℤ}
use promptshield_beta.Base.Map.{lookup, Map}
use promptshield_beta.Base.Decimal.{decimal}

pub record Violation : Type 0 where
  pub rule_id : Str
  pub message : Str
  pub severity : Str
  pub line : ℕ
  pub column : ℕ
  pub rule_timeout_ms : ℤ
  pub category : Str
  pub response_action : Str
  pub response_message : Str
  pub response_replacement : Str

-- A compiled rule. A regex is its source text, and a duration a number of nanoseconds.
pub record CompiledRule : Type 0 where
  pub id : Str
  pub message : Str
  pub severity : Str
  pub category : Str
  pub level : ℤ
  pub keywords : List Str
  pub regexes : List Str
  pub verifiers : List Str
  pub semantic : Option Semantic
  pub fallback_regexes : List Str
  pub when : Option Condition
  pub unless : Option Condition
  pub timeout_ms : ℤ
  pub require_all : Bool
  pub case_sensitive : Bool
  pub whole_word : Bool
  pub literal_tokens : List Str
  pub response : Option Response
  pub fallback_action : Str
  pub cache_enabled : Bool
  pub cache_ttl : ℤ
  pub cache_max_entries : ℤ

-- A match of a literal matcher: the pattern and the index of its first byte.
abbrev pub Hit : Type 0
Hit = Str × ℕ

-- The scanner, with the code it calls: `FindAll` of the matcher of all level 1 keywords and of
-- the rules' token matchers, the matches of a regex, `evaluateSemantic`, which takes the column and
-- returns it, `IsDigit`, `IsLetter` and `ToUpper` of package unicode, the runes that `range` yields
-- on a string, and `ToLower` and `EqualFold` of package strings.
pub record Scanner : Type 0 where
  pub compiled : List CompiledRule
  pub first_match : Bool
  pub max_line_for_regex : ℤ
  pub buffer_size : ℕ
  pub context : Option (Map Str)
  pub aho : Option (Str → List Hit)
  pub token_aho : Map (Str → List Hit)
  pub find_first : Str → Str → Option ℕ
  pub find_all : Str → Str → List (ℕ × ℕ)
  pub is_digit : ℕ → Bool
  pub is_letter : ℕ → Bool
  pub to_upper : ℕ → ℕ
  pub runes : Str → List ℕ
  pub semantic : CompiledRule → Str → ℕ → Bool × ℕ
  pub to_lower : Str → Str
  pub equal_fold : Str → Str → Bool

pub record State : Type 0 where
  pub violations : List Violation
  pub seen : List Str
  pub regex_attempts : ℕ
  pub regex_skipped : ℕ
  pub semantic_attempts : ℕ
  pub semantic_skipped : ℕ

unfoldable pub is_word_char : ℕ → Bool
is_word_char r =
    leb b'0' r && leb r b'9'
    || leb b'a' r && leb r b'z'
    || leb b'A' r && leb r b'Z'
    || r == b'_'
    || r == b'-'

-- `leftOK && rightOK`
unfoldable pub is_whole : Str → ℕ → ℕ → Bool
unfolding is_word_char
is_whole hay idx len =
    (idx == 0 || not (is_word_char (get_or hay (idx - 1) 0)))
    && (leb (length hay) (idx + len) || not (is_word_char (get_or hay (idx + len) 0)))

-- strings.Index
unfoldable pub index : Str → Str → Option ℕ
index [] sub = if same sub [] then some 0 else none
index (c ∷ s) sub =
    let later : Option ℕ = elim (index s sub) [ none ↦ none | some i ↦ some (suc i) ] in
    if same (take (length sub) (c ∷ s)) sub then some 0 else later

unfoldable pub is_seen : Str → List Str → Bool
is_seen key [] = false
is_seen key (k ∷ ks) = same k key || is_seen key ks

-- A violation as it is built without a category and a response.
unfoldable pub plain : CompiledRule → ℕ → ℕ → Violation
plain cr line column = record {
  rule_id = cr.id;
  message = cr.message;
  severity = cr.severity;
  line = line;
  column = column;
  rule_timeout_ms = cr.timeout_ms;
  category = [];
  response_action = [];
  response_message = [];
  response_replacement = [];
}

unfoldable pub full : CompiledRule → ℕ → ℕ → Violation
unfolding plain
full cr line column =
    let v = record (plain cr line column) { category = cr.category } in
    elim cr.response [
      | none ↦ v
      | some r ↦ record v {
        response_action = r.action;
        response_message = r.message;
        response_replacement = r.replacement;
      }
    ]

-- The key is marked and the violation appended, unless the key was seen.
unfoldable pub report : Str → Violation → State → State × Bool
unfolding is_seen
report key v st =
    if is_seen key st.seen
    then (st, false)
    else (record st { violations = st.violations ++ v ∷ []; seen = key ∷ st.seen }, true)

-- "id|line"
unfoldable pub line_key : CompiledRule → ℕ → Str
line_key cr line = cr.id ++ b'|' ∷ decimal line

unfoldable pub condition_matches : Scanner → Condition → Option (Map Str) → Bool
condition_matches s c ctx = all_match c.match
  where
    any_value : Str → List Str → Bool
    any_value got [] = false
    any_value got (v ∷ vs) = s.equal_fold got v || any_value got vs

    one_key : Str → List Str → Option (Map Str) → Bool
    one_key k vals none = false
    one_key k vals (some m) = elim (lookup k m) as (λ x. Bool) [
      | none ↦ false
      | some got ↦ any_value got vals
    ]

    all_match : Map (List Str) → Bool
    all_match [] = true
    all_match ((k, vals) ∷ rest) = one_key k vals ctx && all_match rest

unfoldable pub context_matches : Scanner → CompiledRule → Bool
unfolding condition_matches
context_matches s cr =
    let excluded = elim cr.unless as (λ x. Bool) [
      | none ↦ false
      | some c ↦ condition_matches s c s.context
    ] in
    let included = elim cr.when as (λ x. Bool) [
      | none ↦ true
      | some c ↦ condition_matches s c s.context
    ] in
    if excluded then false else included

-- The rule has a token matcher, and it finds nothing.
unfoldable pub is_gated : Scanner → CompiledRule → Str → Bool
is_gated s cr lower = elim (lookup cr.id s.token_aho) [
  | none ↦ false
  | some find ↦ length (find lower) == 0
]
