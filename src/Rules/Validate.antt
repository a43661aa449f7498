-- ===== src/Rules/Validate.antt =====
-- internal/rules/validate.go: ValidatePack. The text of every error begins with the pack's name,
-- which is left out.
pub mod Ids
pub mod Spec
pub mod Tests
use promptshield_beta.Rules.Complexity
use promptshield_beta.Rules.Complexity.{ComplexityError, check_regex_complexity, prefixed_regex}
use promptshield_beta.Rules.Schema.{Generic, null, ValidationError, prune_nulls, flatten}
use promptshield_beta.Rules.Merge.{has}
use promptshield_beta.Rules.Schema.{is_null}
use promptshield_beta.Base.Text.{Str, bytes, same}
use promptshield_beta.Base.Decimal.{trim_space}
use promptshield_beta.Base.Int.{ℤ, pos, same_int, ltb_int}
use promptshield_beta.Base.{
  List, [], ◌∷◌, ◌++◌, Option, none, some, Bool, true, false, if◌then◌else◌, map, ltb, length, ◌||◌,
}
use promptshield_beta.Rules.Types.{RulePack, Pattern, Semantic, Rule}

pub data StrictError : Type 0 where
  no_regex : StrictError
  invalid_flag : Str → StrictError
  compile_error : Str → StrictError

pub data PatternError : Type 0 where
  too_long : PatternError
  regex_error : StrictError → PatternError
  complexity_error : ComplexityError → PatternError

pub data PackError : Type 0 where
  schema_error : (location message : Str) → PackError
  schema_broken : Str → PackError
  missing_id : PackError
  duplicate_id : Str → PackError
  no_keywords : Str → PackError
  no_patterns : Str → PackError
  pattern_error : Str → PatternError → PackError
  invalid_timeout : (id timeout : Str) → PackError
  no_semantic : Str → PackError
  no_model : Str → PackError
  invalid_level : Str → ℤ → PackError

-- What the code calls: regexp.Compile and time.ParseDuration, as their errors, the file and the
-- marshalled pack as YAML values, and the schema's compilation and validation.
pub record Calls : Type 0 where
  pub complexity : Complexity.Calls
  pub compile : Str → Option Str
  pub parse_duration : Str → Option Str
  pub read_source : Str → Option Generic
  pub marshal : RulePack → Generic
  pub schema_err : Option Str
  pub validate : Generic → Option ValidationError

unfoldable pub is_allowed : Str → Bool
is_allowed f =
    same f (bytes "ignorecase")
    || same f (bytes "i")
    || same f (bytes "multiline")
    || same f (bytes "m")

-- The first flag that is not allowed, in lower case.
unfoldable pub first_invalid : (Str → Str) → List Str → Option Str
unfolding is_allowed
first_invalid to_lower [] = none
first_invalid to_lower (f ∷ fs) =
    let rest = first_invalid to_lower fs in
    if is_allowed (to_lower f) then rest else some (to_lower f)

-- compileRegexStrict: `none` is no error.
unfoldable pub compile_regex_strict : Calls → Str → List Str → Option StrictError
unfolding first_invalid prefixed_regex
compile_regex_strict c expr flags =
    if same expr [] then some no_regex else elim (first_invalid c.complexity.to_lower flags) [
      | some f ↦ some (invalid_flag f)
      | none ↦ elim (c.compile (prefixed_regex c.complexity.to_lower expr flags)) [
        | some e ↦ some (compile_error e)
        | none ↦ none
      ]
    ]

-- The body of the loop over the patterns of a rule of level 2.
unfoldable pub check_pattern : Calls → Pattern → Option PatternError
unfolding compile_regex_strict check_regex_complexity
check_pattern c p =
    if ltb 1000 (length p.regex)
    then some too_long
    else elim (compile_regex_strict c p.regex p.flags) [
      | some e ↦ some (regex_error e)
      | none ↦ elim (check_regex_complexity c.complexity p.regex p.flags) [
        | some e ↦ some (complexity_error e)
        | none ↦ none
      ]
    ]

unfoldable pub check_patterns : Calls → Str → List Pattern → List PackError
unfolding check_pattern
check_patterns c id [] = []
check_patterns c id (p ∷ ps) =
    let rest = check_patterns c id ps in
    elim (check_pattern c p) [ some e ↦ pattern_error id e ∷ rest | none ↦ rest ]

unfoldable pub check_timeout : Calls → Str → Str → List PackError
check_timeout c id timeout =
    if same timeout []
    then []
    else elim (c.parse_duration timeout) [ some e ↦ invalid_timeout id timeout ∷ [] | none ↦ [] ]

unfoldable pub check_semantic : Str → Option Semantic → List PackError
check_semantic id none = no_semantic id ∷ []
check_semantic id (some s) = if same (trim_space s.model) [] then no_model id ∷ [] else []

unfoldable pub need_patterns : Str → List Pattern → List PackError
need_patterns id [] = no_patterns id ∷ []
need_patterns id (p ∷ ps) = []

-- The switch on the level.
unfoldable pub check_rule : Calls → Rule → List PackError
unfolding check_patterns check_timeout check_semantic need_patterns
check_rule c r =
    if same_int r.level (pos 1)
    then (elim r.keywords [ [] ↦ no_keywords r.id ∷ [] | k ∷ ks ↦ [] ])
    else if same_int r.level (pos 2)
    then need_patterns r.id r.patterns
      ++ check_patterns c r.id r.patterns
      ++ check_timeout c r.id r.timeout
    else if same_int r.level (pos 3)
    then check_semantic r.id r.semantic
    else if ltb_int r.level (pos 1) || ltb_int (pos 3) r.level
    then invalid_level r.id r.level ∷ []
    else []

unfoldable pub check_rules : Calls → List Rule → List PackError
unfolding check_rule
check_rules c [] = []
check_rules c (r ∷ rs) = check_rule c r ++ check_rules c rs

-- The loop over the ids; `seen` is the map's keys.
unfoldable pub check_ids : List Str → List Rule → List PackError
unfolding has
check_ids seen [] = []
check_ids seen (r ∷ rs) = elim (same r.id []) [
  | true ↦ missing_id ∷ check_ids seen rs
  | false ↦ (if has r.id seen then duplicate_id r.id ∷ [] else []) ++ check_ids (r.id ∷ seen) rs
]

-- The value that is validated: the source file, where it can be read and is not null, or the pack.
unfoldable pub generic_of : Calls → RulePack → Generic
unfolding is_null
generic_of c p = if same p.source_path [] then c.marshal p else elim (c.read_source p.source_path) [
  | none ↦ c.marshal p
  | some g ↦ if is_null g then c.marshal p else g
]

unfoldable pub schema_errors : List (Str × Str) → List PackError
schema_errors [] = []
schema_errors ((l, m) ∷ es) = schema_error l m ∷ schema_errors es

unfoldable pub check_schema : Calls → RulePack → List PackError
unfolding generic_of schema_errors prune_nulls flatten
check_schema c p = elim c.schema_err [
  | some e ↦ schema_broken e ∷ []
  | none ↦ elim (c.validate (prune_nulls (generic_of c p))) [
    | none ↦ []
    | some e ↦ schema_errors (flatten e)
  ]
]

unfoldable pub validate_pack : Calls → RulePack → List PackError
unfolding check_schema check_ids check_rules
validate_pack c p = check_schema c p ++ check_ids [] p.rules ++ check_rules c p.rules
