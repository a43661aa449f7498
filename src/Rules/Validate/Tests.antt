-- ===== src/Rules/Validate/Tests.antt =====
-- A pack with a rule of each level, and its errors.
use promptshield_beta.Rules.Validate.{Calls, validate_pack, check_schema}
use promptshield_beta.Rules.Validate.Spec.{validate_pack_iff, AreValidRules}
use promptshield_beta.Rules.Validate.Ids.{HaveIds, ids_of}
use promptshield_beta.Rules.Merge.Order.{Unique}
use promptshield_beta.Rules.Schema.{null}
use promptshield_beta.Base.Text.{Str, bytes, same}
use promptshield_beta.Base.Int.{pos}
use promptshield_beta.Rules.Complexity.{other, nil}
use promptshield_beta.Rules.Validate.{duplicate_id, no_keywords, check_ids, check_rules}
use promptshield_beta.Base.{inr, List, ◌≡◌, [], ◌∷◌, none, ◌↔◌, refl, false}
use promptshield_beta.Rules.Types.{Rule, RulePack}
use promptshield_beta.Rules.Merge.{has}

-- Every text compiles, and the schema accepts everything.
abbrev pub lenient : Calls
lenient = record {
  complexity = record {
    parse = λ text. inr (other nil);
    simplify = λ r. r;
    getenv = λ name. [];
    to_lower = λ text. text;
  };
  compile = λ text. none;
  parse_duration = λ text. none;
  read_source = λ path. none;
  marshal = λ p. null;
  schema_err = none;
  validate = λ g. none;
}

abbrev keyword_rule : Str → List Str → Rule
keyword_rule id keywords = record {
  id = id;
  name = [];
  level = pos 1;
  severity = bytes "HIGH";
  category = [];
  enabled = none;
  verifier = [];
  keywords = keywords;
  patterns = [];
  semantic = none;
  fallback = none;
  logic = [];
  options = record { case_sensitive = false; whole_word = false };
  response = none;
  cache = none;
  when = none;
  unless = none;
  timeout = [];
}

abbrev pattern_rule : Rule
pattern_rule = record (keyword_rule (bytes "b") []) {
  level = pos 2;
  patterns = record { name = []; regex = bytes "a+"; flags = bytes "i" ∷ []; verifier = [] } ∷ [];
}

abbrev pub checked_pack : List Rule → RulePack
checked_pack rules = record {
  api_version = [];
  kind = [];
  metadata = record {
    name = bytes "p";
    version = [];
    description = [];
    author = [];
    license = [];
    homepage = [];
    repository = [];
    tags = [];
  };
  rules = rules;
  extends = [];
  imports = [];
  composition = none;
  performance = none;
  overrides = [];
  context = [];
  source_path = [];
}

abbrev pub two_levels : RulePack
two_levels = checked_pack (keyword_rule (bytes "a") (bytes "ignore" ∷ []) ∷ pattern_rule ∷ [])

abbrev faulty : RulePack
faulty = checked_pack (keyword_rule (bytes "a") [] ∷ keyword_rule (bytes "a") (bytes "k" ∷ []) ∷ [])

faulty_errors :
    validate_pack lenient faulty ≡ duplicate_id (bytes "a") ∷ no_keywords (bytes "a") ∷ []
unfolding validate_pack check_schema check_ids check_rules same has
faulty_errors = refl

validate_pack_iff_example : (validate_pack lenient two_levels ≡ []) ↔ (
    (check_schema lenient two_levels ≡ [])
    × HaveIds two_levels.rules
    × Unique (ids_of two_levels.rules)
    × AreValidRules lenient two_levels.rules)
validate_pack_iff_example = validate_pack_iff lenient two_levels
