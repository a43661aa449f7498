-- ===== src/Scanner/Loader/Tests.antt =====
-- A load of two packs, one of which limits the lines.
use promptshield_beta.Rules.Types.{Performance, RulePack}
use promptshield_beta.Base.{Option, some, [], ◌∷◌, true, none, ℕ, ◌≡◌, arith, refl}
use promptshield_beta.Scanner.Loader.{Loaded, NewAho, load_rule_packs, merged_rules}
use promptshield_beta.Scanner.Loader.Matchers.{rules_in, matcher, load_rule_packs-matcher}
use promptshield_beta.Base.Int.{pos}
use promptshield_beta.Base.Text.{Str, bytes}
use promptshield_beta.Scanner.Compile.Tests.{calls, rule, defaults}
use promptshield_beta.Scanner.Tests.{two_rules}
use promptshield_beta.Scanner.Loader.Settings.{limit_of, Within, KeepsTo, load_rule_packs-limit}
use promptshield_beta.Scanner.Compile.{compile_rules}

abbrev limits : Performance
limits = record {
  max_length = pos 100;
  timeout = [];
  per_rule_timeout = [];
  total_scan_timeout = [];
  gate = record { enabled = true; min_token_len = pos 0 };
}

abbrev pub pack : Option Performance → RulePack
pack performance = record {
  api_version = [];
  kind = [];
  metadata = record {
    name = bytes "p";
    version = [];
    description = [];
    author = [];
    license = [];
    homepage = [];
    repository = [];
    tags = [];
  };
  rules = rule ∷ [];
  extends = [];
  imports = [];
  composition = none;
  performance = performance;
  overrides = [];
  context = [];
  source_path = [];
}

abbrev pub loaded : Loaded (Option (Str × Str))
loaded = record {
  scanner = record two_rules { max_line_for_regex = pos 300 };
  defaults = defaults;
  composition_strategy = [];
  max_pattern_length = pos 1000;
  file_timeout = pos 0;
  cache = none;
}

abbrev pub no_matcher : NewAho
no_matcher = λ words text. []

load_rule_packs-limit_example :
    let packs = pack (some limits) ∷ pack none ∷ [] in
    (m : ℕ) × (limit_of calls no_matcher (load_rule_packs calls no_matcher packs loaded).0 ≡ pos m)
    × Within m 300
    × KeepsTo m packs
load_rule_packs-limit_example =
    load_rule_packs-limit calls no_matcher (pack (some limits) ∷ pack none ∷ []) loaded 300 refl

load_rule_packs-matcher_example :
    (rules_in calls no_matcher (load_rule_packs calls no_matcher (pack none ∷ []) loaded).0
      ≡ (compile_rules calls defaults none
          (merged_rules calls no_matcher (pack none ∷ []) loaded)).0)
    × (matcher calls no_matcher (load_rule_packs calls no_matcher (pack none ∷ []) loaded).0
        ≡ two_rules.aho)
load_rule_packs-matcher_example =
    load_rule_packs-matcher calls no_matcher (pack none ∷ []) loaded
      ((λ perf e. absurd (ground (arith, e))), tt)
