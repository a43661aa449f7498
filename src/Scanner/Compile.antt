-- ===== src/Scanner/Compile.antt =====
-- internal/scanner/rule_eval.go: merged rules are compiled. A compiled regex is the source that is
-- given to `regexp.Compile`, its inline flags included.
pub mod Kept
pub mod Tests
use promptshield_beta.Base.Text.{Str, bytes}
use promptshield_beta.Base.Int.{ℤ, pos, negsuc, sub_ℕ, is_pos, ltb_int, same_int}
use promptshield_beta.Rules.Complexity.{flag_prefix, ComplexityError}
use promptshield_beta.Base.{
  List, Option, Bool, ◌∷◌, ℕ, ◌/◌, ◌⊎◌, ◌++◌, [], inl, if◌then◌else◌, suc, false, ltb, true, ◌&&◌,
  length, inr, some, none, ◌==◌, ◌||◌,
}
use promptshield_beta.Scanner.Literals.{cache_key, extract_tokens}
use promptshield_beta.Rules.Types.{Pattern, Rule, Cache}
use promptshield_beta.Base.Decimal.{trim_space}
use promptshield_beta.Scanner.Evaluate.{CompiledRule}

-- What the code calls, over the states C of the LRU cache: `Get` and `Add` of the cache,
-- `regexp.Compile`, which answers nothing or an error, `CheckRegexComplexity`, `ParseDuration`,
-- which answers nanoseconds, and `ToLower` and `EqualFold` of package strings.
pub record Calls (C : Type 0) : Type 0 where
  pub get : C → Str → Option Str × C
  pub add : C → Str → Str → C
  pub compile_error : Str → Option Str
  pub check_complexity : Str → List Str → Option ComplexityError
  pub parse_duration : Str → Option ℤ
  pub to_lower : Str → Str
  pub equal_fold : Str → Str → Bool

pub data RegexError : Type 0 where
  empty_regex : RegexError
  longer_than : ℤ → RegexError
  too_complex : ComplexityError → RegexError
  invalid_regex : Str → Str → RegexError

-- An error names the rule, the place among its patterns, and whether those are of the fallback.
pub record RuleError : Type 0 where
  pub rule_id : Str
  pub in_fallback : Bool
  pub place : ℕ
  pub cause : RegexError

-- The arguments of compileRules after the rules, and `globalMaxPatternLength` and `minTokenLen`.
pub record Defaults : Type 0 where
  pub rule_timeout_ms : ℤ
  pub case_sensitive : Bool
  pub whole_word : Bool
  pub max_pattern_length : ℤ
  pub min_token_len : ℕ

unfoldable pub coalesce : Str → Str → Str
coalesce [] d = d
coalesce (b ∷ v) d = b ∷ v

-- d.Milliseconds() of nanoseconds: the division rounds towards 0.
unfoldable pub milliseconds : ℤ → ℤ
milliseconds (pos n) = pos (n / 1_000_000)
milliseconds (negsuc n) = sub_ℕ 0 (suc n / 1_000_000)

module _ {C : Type 0} (k : Calls C) where
  unfoldable pub compile_regex : ℤ → C → Str → List Str → (RegexError ⊎ Str) × C
  unfolding flag_prefix cache_key
  compile_regex limit c [] flags = (inl empty_regex, c)
  compile_regex limit c (b ∷ rest) flags =
      let expr = b ∷ rest in
      let source = flag_prefix k.to_lower flags [] ++ expr in
      let key = cache_key source flags in
      let (hit, c') = k.get c key in
      if is_pos limit && ltb_int limit (pos (length expr))
      then (inl (longer_than limit), c)
      else elim hit as (λ x. (RegexError ⊎ Str) × C) [
        | some rx ↦ (inr rx, c')
        | none ↦ elim (k.compile_error source) as (λ x. (RegexError ⊎ Str) × C) [
          | some e ↦ (inl (invalid_regex expr e), c')
          | none ↦ (inr source, k.add c' key source)
        ]
      ]

-- What the loops over the patterns write.
pub record Progress (C : Type 0) : Type 0 where
  pub cache : C
  pub regexes : List Str
  pub verifiers : List Str
  pub literal_tokens : List Str
  pub fallback_regexes : List Str
  pub errors : List RuleError

module _ {C : Type 0} (k : Calls C) (d : Defaults) (rule_id : Str) where
  unfoldable pub with_error : Bool → ℕ → RegexError → Progress C → Progress C
  with_error in_fallback i cause p = record p {
    errors =
        p.errors
        ++ record { rule_id = rule_id; in_fallback = in_fallback; place = i; cause = cause } ∷ [];
  }

  unfoldable pub keep_regex : ℕ → Pattern → RegexError ⊎ Str → Progress C → Progress C
  unfolding with_error
  keep_regex i pat (inl e) p = with_error false i e p
  keep_regex i pat (inr rx) p = record p {
    regexes = p.regexes ++ rx ∷ [];
    verifiers = p.verifiers ++ k.to_lower (trim_space pat.verifier) ∷ [];
  }

  -- The regex is compiled, or its error is kept. Its tokens are taken in both cases.
  unfoldable pub add_pattern : ℕ → Pattern → Progress C → Progress C
  unfolding keep_regex
  add_pattern i pat p =
      let (compiled, cache) = compile_regex k d.max_pattern_length p.cache pat.regex pat.flags in
      keep_regex i pat compiled (record p {
        cache = cache;
        literal_tokens = p.literal_tokens ++ extract_tokens d.min_token_len pat.regex;
      })

  unfoldable pub on_pattern : ℕ → Pattern → Progress C → Progress C
  unfolding with_error
  on_pattern i pat p =
      if ltb 1000 (length pat.regex)
      then with_error false i (longer_than (pos 1000)) p
      else elim (k.check_complexity pat.regex pat.flags) [
        | some e ↦ with_error false i (too_complex e) p
        | none ↦ add_pattern i pat p
      ]

  unfoldable pub pattern_loop : ℕ → List Pattern → Progress C → Progress C
  pattern_loop i [] p = p
  pattern_loop i (pat ∷ pats) p = pattern_loop (suc i) pats (on_pattern i pat p)

  unfoldable pub keep_fallback : ℕ → RegexError ⊎ Str → Progress C → Progress C
  unfolding with_error
  keep_fallback i (inl e) p = with_error true i e p
  keep_fallback i (inr rx) p = record p { fallback_regexes = p.fallback_regexes ++ rx ∷ [] }

  unfoldable pub on_fallback : ℕ → Pattern → Progress C → Progress C
  unfolding keep_fallback
  on_fallback i pat p =
      let (compiled, cache) = compile_regex k d.max_pattern_length p.cache pat.regex pat.flags in
      keep_fallback i compiled (record p { cache = cache })

  unfoldable pub fallback_loop : ℕ → List Pattern → Progress C → Progress C
  fallback_loop i [] p = p
  fallback_loop i (pat ∷ pats) p = fallback_loop (suc i) pats (on_fallback i pat p)

abbrev pub fallback_patterns : Rule → List Pattern
fallback_patterns r = elim r.fallback [ none ↦ [] | some f ↦ f.patterns ]

abbrev pub nothing_done : {C : Type 0} → C → Progress C
nothing_done cache = record {
  cache = cache;
  regexes = [];
  verifiers = [];
  literal_tokens = [];
  fallback_regexes = [];
  errors = [];
}

module _ {C : Type 0} (k : Calls C) (d : Defaults) where
  unfoldable pub timeout_of : Rule → ℤ
  unfolding milliseconds
  timeout_of r =
      let own : ℤ = elim (k.parse_duration r.timeout) [ none ↦ pos 0 | some n ↦ milliseconds n ] in
      let given = if length r.timeout == 0 then pos 0 else own in
      if same_int given (pos 0) && is_pos d.rule_timeout_ms then d.rule_timeout_ms else given

  unfoldable pub keywords_of : Bool → List Str → List Str
  keywords_of sensitive [] = []
  keywords_of sensitive (w ∷ ws) =
      (if sensitive then w else k.to_lower w) ∷ keywords_of sensitive ws

  unfoldable pub ttl_of : Cache → ℤ
  ttl_of c =
      let ttl = trim_space c.ttl in
      let own : ℤ = elim (k.parse_duration ttl) [ none ↦ pos 0 | some n ↦ n ] in
      if length ttl == 0 then pos 0 else own

  -- The fields that do not come from the patterns, with those that do.
  unfoldable pub compiled_of : Rule → Progress C → CompiledRule
  unfolding coalesce timeout_of keywords_of ttl_of
  compiled_of r p =
      let sensitive = d.case_sensitive || r.options.case_sensitive in
      record {
        id = r.id;
        message = coalesce r.name (bytes "rule violation");
        severity = coalesce r.severity (bytes "INFO");
        category = r.category;
        level = r.level;
        keywords = keywords_of sensitive r.keywords;
        regexes = p.regexes;
        verifiers = p.verifiers;
        semantic = r.semantic;
        fallback_regexes = p.fallback_regexes;
        when = r.when;
        unless = r.unless;
        timeout_ms = timeout_of r;
        require_all = k.equal_fold r.logic (bytes "all");
        case_sensitive = sensitive;
        whole_word = d.whole_word || r.options.whole_word;
        literal_tokens = p.literal_tokens;
        response = r.response;
        fallback_action = elim r.fallback [ none ↦ [] | some f ↦ f.action ];
        cache_enabled = elim r.cache [ none ↦ false | some c ↦ c.enabled ];
        cache_ttl = elim r.cache [ none ↦ pos 0 | some c ↦ ttl_of c ];
        cache_max_entries = elim r.cache [
          | none ↦ pos 0
          | some c ↦ if is_pos c.max_entries then c.max_entries else pos 0
        ];
      }

  unfoldable pub patterns_done : C → Rule → Progress C
  unfolding pattern_loop fallback_loop
  patterns_done cache r =
      fallback_loop k d r.id 0 (fallback_patterns r)
        (pattern_loop k d r.id 0 r.patterns (nothing_done cache))

  -- The compiled rules, the errors, and the cache after them.
  unfoldable pub compile_rules : C → List Rule → List CompiledRule × List RuleError × C
  unfolding patterns_done compiled_of
  compile_rules cache [] = ([], [], cache)
  compile_rules cache (r ∷ rs) =
      let p = patterns_done cache r in
      let (crs, errs, last) = compile_rules p.cache rs in
      (compiled_of r p ∷ crs, p.errors ++ errs, last)
