-- ===== src/Scanner/Compile/Tests.antt =====
-- A rule with a pattern that compiles and one that does not.
use promptshield_beta.Base.Text.{Str, bytes, same}
use promptshield_beta.Rules.Types.{Rule, Pattern}
use promptshield_beta.Scanner.Compile.{
  Calls, Defaults, compile_rules, on_pattern, add_pattern, compile_regex,
}
use promptshield_beta.Base.{Option, none, [], some, false, ◌∷◌, map, ◌≡◌, ◌+◌, length, refl}
use promptshield_beta.Base.Int.{pos}
use promptshield_beta.Scanner.Evaluate.{CompiledRule}
use promptshield_beta.Scanner.Compile.Kept.{AllParallel, kept_count, compile_rules_lem}

abbrev pattern : Str → Pattern
pattern regex = record { name = []; regex = regex; flags = bytes "i" ∷ []; verifier = [] }

abbrev pub rule : Rule
rule = record {
  id = bytes "r1";
  name = [];
  level = pos 2;
  severity = [];
  category = [];
  enabled = none;
  verifier = [];
  keywords = bytes "key" ∷ [];
  patterns = pattern (bytes "abc") ∷ pattern [] ∷ [];
  semantic = none;
  fallback = none;
  logic = [];
  options = record { case_sensitive = false; whole_word = false };
  response = none;
  cache = none;
  when = none;
  unless = none;
  timeout = [];
}

-- The cache keeps the last entry.
abbrev pub calls : Calls (Option (Str × Str))
calls = record {
  get = λ c key. (none, c);
  add = λ c key rx. some (key, rx);
  compile_error = λ source. none;
  check_complexity = λ source flags. none;
  parse_duration = λ text. none;
  to_lower = λ text. text;
  equal_fold = λ a b. same a b;
}

abbrev pub defaults : Defaults
defaults = record {
  rule_timeout_ms = pos 50;
  case_sensitive = false;
  whole_word = false;
  max_pattern_length = pos 0;
  min_token_len = 3;
}

compiled_rule :
    map (λ (cr : CompiledRule). cr.regexes) (compile_rules calls defaults none (rule ∷ [])).0
    ≡ (bytes "(?i)abc" ∷ []) ∷ []
unfolding compile_rules on_pattern add_pattern compile_regex same
compiled_rule = refl

compile_rules_lem_example :
    let out = compile_rules calls defaults none (rule ∷ []) in
    (map (λ (cr : CompiledRule). cr.id) out.0 ≡ bytes "r1" ∷ [])
    × AllParallel out.0
    × (kept_count out.0 + length out.1 ≡ 2)
compile_rules_lem_example = compile_rules_lem calls defaults none (rule ∷ [])
