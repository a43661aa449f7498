-- ===== src/Scanner/Loader.antt =====
-- internal/scanner/loader.go: rule packs are merged and compiled into the scanner, and their
-- settings are taken over. `NewAho` of aho.go is an argument.
pub mod Settings
pub mod Matchers
pub mod Ids
pub mod Tests
use promptshield_beta.Scanner.Evaluate.{Scanner, Hit, CompiledRule}
use promptshield_beta.Base.{
  List, Bool, ◌∷◌, Option, if◌then◌else◌, false, none, length, [], ◌||◌, map, some, ◌==◌, ◌++◌,
}
use promptshield_beta.Base.Text.{Str, bytes, same}
use promptshield_beta.Base.Int.{ℤ, ltb_int, is_pos, same_int, pos, pos_part}
use promptshield_beta.Scanner.Compile.{Calls, Defaults, RuleError, compile_rules}
use promptshield_beta.Rules.Types.{Pattern, Rule, Performance, RulePack}
use promptshield_beta.Base.Map.{Map, insert}
use promptshield_beta.Rules.Merge.{merge_packs_priority_order, merge_packs}

-- The fields of the scanner that LoadRulePacks reads and writes, with the globals `minTokenLen` and
-- `globalRegexCache`. Durations are in nanoseconds.
pub record Loaded (C : Type 0) : Type 0 where
  pub scanner : Scanner
  pub defaults : Defaults
  pub composition_strategy : Str
  pub max_pattern_length : ℤ
  pub file_timeout : ℤ
  pub cache : C

abbrev pub NewAho : Type 0
NewAho = List Str → Str → List Hit

-- The name of the strategy of a pack that has one, in any case of letters.
unfoldable pub has_strategy : (Str → Str → Bool) → Str → RulePack → Bool
has_strategy equal_fold name p = elim p.composition [
  | none ↦ false
  | some c ↦ equal_fold c.strategy name
]

unfoldable pub any_strategy : (Str → Str → Bool) → Str → List RulePack → Bool
unfolding has_strategy
any_strategy equal_fold name [] = false
any_strategy equal_fold name (p ∷ ps) =
    has_strategy equal_fold name p || any_strategy equal_fold name ps

unfoldable pub short_patterns : ℤ → List Pattern → List Pattern
short_patterns limit [] = []
short_patterns limit (p ∷ ps) =
    let rest = short_patterns limit ps in
    if ltb_int limit (pos (length p.regex)) then rest else p ∷ rest

-- The rule without patterns that are too long. The code writes the fallback in place.
unfoldable pub trim_rule : ℤ → Rule → Rule
unfolding short_patterns
trim_rule limit r = record r {
  patterns = short_patterns limit r.patterns;
  fallback = elim r.fallback [
    | none ↦ none
    | some f ↦ some (record f { patterns = short_patterns limit f.patterns })
  ];
}

unfoldable pub trim_rules : ℤ → List Rule → List Rule
unfolding trim_rule
trim_rules limit rs = if is_pos limit then map (trim_rule limit) rs else rs

-- The keywords of level 1 that are not empty.
unfoldable pub nonempty : List Str → List Str
nonempty [] = []
nonempty ([] ∷ ws) = nonempty ws
nonempty ((b ∷ w) ∷ ws) = (b ∷ w) ∷ nonempty ws

unfoldable pub level_one : List CompiledRule → List Str
unfolding nonempty
level_one [] = []
level_one (cr ∷ crs) =
    if same_int cr.level (pos 1) then nonempty cr.keywords ++ level_one crs else level_one crs

unfoldable pub matcher_of : NewAho → List Str → Option (Str → List Hit)
matcher_of new_aho [] = none
matcher_of new_aho (w ∷ ws) = some (new_aho (w ∷ ws))

-- A later rule with the same identifier takes the place of an earlier one.
unfoldable pub add_tokens : NewAho → Str → List Str → Map (Str → List Hit) → Map (Str → List Hit)
add_tokens new_aho id [] m = m
add_tokens new_aho id (t ∷ ts) m = insert id (new_aho (t ∷ ts)) m

unfoldable pub token_matchers :
    NewAho → List CompiledRule → Map (Str → List Hit) → Map (Str → List Hit)
unfolding add_tokens
token_matchers new_aho [] m = m
token_matchers new_aho (cr ∷ crs) m =
    token_matchers new_aho crs (add_tokens new_aho cr.id cr.literal_tokens m)

-- The smaller of two settings, of which 0 stands for none.
unfoldable pub tighter : ℤ → ℤ → ℤ
tighter new old = if same_int old (pos 0) || ltb_int new old then new else old

module _ {C : Type 0} (k : Calls C) (new_aho : NewAho) where
  -- A positive MaxLength also rebuilds the matchers.
  unfoldable pub with_max_length : Performance → Loaded C → Loaded C
  unfolding tighter matcher_of level_one token_matchers
  with_max_length perf l =
      let s = l.scanner in
      let least = perf.gate.min_token_len in
      if is_pos perf.max_length
      then record l {
        scanner = record s {
          max_line_for_regex = tighter perf.max_length s.max_line_for_regex;
          aho = matcher_of new_aho (level_one s.compiled);
          token_aho = token_matchers new_aho s.compiled [];
        };
        defaults = record l.defaults {
          min_token_len = if is_pos least then pos_part least else l.defaults.min_token_len;
        };
      }
      else l

  unfoldable pub take_timeout : Option ℤ → Loaded C → Loaded C
  unfolding tighter
  take_timeout none l = l
  take_timeout (some d) l = record l { file_timeout = tighter d l.file_timeout }

  unfoldable pub with_timeout : Performance → Loaded C → Loaded C
  unfolding take_timeout
  with_timeout perf l =
      take_timeout (if length perf.timeout == 0 then none else k.parse_duration perf.timeout) l

  -- A gate that is not enabled drops the token matchers.
  unfoldable pub with_gate : Performance → Loaded C → Loaded C
  with_gate perf l =
      if perf.gate.enabled then l else record l { scanner = record l.scanner { token_aho = [] } }

  unfoldable pub with_performance : Performance → Loaded C → Loaded C
  unfolding with_max_length with_timeout with_gate
  with_performance perf l = with_gate perf (with_timeout perf (with_max_length perf l))

  -- A pack may switch first_match on.
  unfoldable pub with_first : RulePack → Loaded C → Loaded C
  unfolding has_strategy
  with_first p l =
      let first = has_strategy k.equal_fold (bytes "first_match") p || l.scanner.first_match in
      record l { scanner = record l.scanner { first_match = first } }

  unfoldable pub with_pack : RulePack → Loaded C → Loaded C
  unfolding with_first
  with_pack p l = elim p.performance [
    | none ↦ with_first p l
    | some perf ↦ with_performance perf (with_first p l)
  ]

  unfoldable pub pack_loop : List RulePack → Loaded C → Loaded C
  unfolding with_pack
  pack_loop [] l = l
  pack_loop (p ∷ ps) l = pack_loop ps (with_pack p l)

  -- The rules that are compiled.
  unfoldable pub merged_rules : List RulePack → Loaded C → List Rule
  unfolding any_strategy trim_rules
  merged_rules packs l =
      let wanted = k.to_lower l.composition_strategy in
      let by_priority =
        same wanted (bytes "priority_order")
        || any_strategy k.equal_fold (bytes "priority_order") packs in
      trim_rules l.max_pattern_length
        (if by_priority then merge_packs_priority_order packs else merge_packs packs)

  -- The scanner after the load, and the errors that are logged.
  unfoldable pub load_rule_packs : List RulePack → Loaded C → Loaded C × List RuleError
  unfolding merged_rules pack_loop
  load_rule_packs packs l =
      let first = same (k.to_lower l.composition_strategy) (bytes "first_match") in
      let (crs, errs, cache) = compile_rules k l.defaults l.cache (merged_rules packs l) in
      let s = record l.scanner { compiled = crs; first_match = first || l.scanner.first_match } in
      (pack_loop packs (record l { scanner = s; cache = cache }), errs)
