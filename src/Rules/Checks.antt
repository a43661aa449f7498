-- ===== src/Rules/Checks.antt =====
-- internal/rules: the checks of the loader: the features of a pack (loader_validate.go), the names of
-- the packs (loader.go) and the patterns of all levels (patterns.go).
pub mod Names
use promptshield_beta.Rules.Validate.{Calls, check_pattern, compile_regex_strict}
use promptshield_beta.Base.{
  List, [], ◌∷◌, ◌++◌, Option, none, some, ℕ, suc, if◌then◌else◌, Bool, ◌||◌, ◌≡◌, true, arith,
  false,
}
use promptshield_beta.Base.Text.{Str, bytes, same}
use promptshield_beta.Base.Map.{Map, lookup, insert}
use promptshield_beta.Rules.Types.{Rule, RulePack, Pattern, Fallback}
use promptshield_beta.Rules.Complexity.{prefixed_regex}

-- The errors, with what their texts name.
pub data FeatureError : Type 0 where
  unsupported_strategy : Str → FeatureError
  unsupported_logic : (rule_id logic : Str) → FeatureError

unfoldable pub is_known_strategy : Str → Bool
is_known_strategy s =
    same s []
    || same s (bytes "all_matches")
    || same s (bytes "first_match")
    || same s (bytes "priority_order")

-- validateRuleFeatures
unfoldable pub is_known_logic : Str → Bool
is_known_logic l = same l [] || same l (bytes "any") || same l (bytes "all")

unfoldable pub first_unknown_logic : List Rule → Option FeatureError
unfolding is_known_logic
first_unknown_logic [] = none
first_unknown_logic (r ∷ rs) =
    let rest = first_unknown_logic rs in
    if is_known_logic r.logic then rest else some (unsupported_logic r.id r.logic)

unfoldable pub validate_supported_features : RulePack → Option FeatureError
unfolding is_known_strategy first_unknown_logic
validate_supported_features p = elim p.composition [
  | none ↦ first_unknown_logic p.rules
  | some c ↦
      if is_known_strategy c.strategy
      then first_unknown_logic p.rules
      else some (unsupported_strategy c.strategy)
]

-- The name that two packs share, and their sources.
pub record DuplicateName : Type 0 where
  pub name : Str
  pub prev : Str
  pub src : Str

unfoldable pub source_of : RulePack → Str
source_of p = if same p.source_path [] then bytes "(remote)" else p.source_path

unfoldable pub unique_loop : List RulePack → Map Str → Option DuplicateName
unfolding source_of
unique_loop [] seen = none
unique_loop (p ∷ ps) seen =
    let name = p.metadata.name in
    elim (same name []) [
      | true ↦ unique_loop ps seen
      | false ↦ elim (lookup name seen) [
        | some prev ↦ some (record { name = name; prev = prev; src = source_of p })
        | none ↦ unique_loop ps (insert name (source_of p) seen)
      ]
    ]

unfoldable pub check_unique_names : List RulePack → Option DuplicateName
unfolding unique_loop
check_unique_names ps = unique_loop ps []

-- CompilePattern: `none` is no error; an empty text is the error of an empty regex.
unfoldable pub compile_pattern : Calls → Str → List Str → Option Str
unfolding prefixed_regex
compile_pattern c expr flags =
    if same expr []
    then some (bytes "empty regex")
    else c.compile (prefixed_regex c.complexity.to_lower expr flags)

-- The closure `check`: the rule, the kind and the index of a pattern, its text and the error.
pub record InvalidPattern : Type 0 where
  pub rule_id : Str
  pub kind : Str
  pub index : ℕ
  pub regex : Str
  pub error : Str

unfoldable pub check_all : Calls → Str → Str → ℕ → List Pattern → List InvalidPattern
unfolding compile_pattern
check_all c rule_id kind i [] = []
check_all c rule_id kind i (p ∷ ps) =
    let rest = check_all c rule_id kind (suc i) ps in
    elim (compile_pattern c p.regex p.flags) [
      | none ↦ rest
      | some e ↦
          record { rule_id = rule_id; kind = kind; index = i; regex = p.regex; error = e } ∷ rest
    ]

unfoldable pub fallback_of : Option Fallback → List Pattern
fallback_of none = []
fallback_of (some f) = f.patterns

unfoldable pub check_rule_patterns : Calls → List Rule → List InvalidPattern
unfolding check_all fallback_of
check_rule_patterns c [] = []
check_rule_patterns c (r ∷ rs) =
    check_all c r.id (bytes "pattern") 0 r.patterns
    ++ check_all c r.id (bytes "fallback pattern") 0 (fallback_of r.fallback)
    ++ check_rule_patterns c rs

unfoldable pub check_patterns : Calls → RulePack → List InvalidPattern
unfolding check_rule_patterns
check_patterns c p = check_rule_patterns c p.rules

-- A pattern that ValidatePack accepts is one that compiles for CheckPatterns.
check_pattern-compiles :
    (c : Calls) (p : Pattern) → check_pattern c p ≡ none → compile_pattern c p.regex p.flags ≡ none
unfolding check_pattern compile_regex_strict compile_pattern
check_pattern-compiles c p h = ground (arith, h)
