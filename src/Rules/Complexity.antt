-- ===== src/Rules/Complexity.antt =====
-- internal/rules/complexity.go: the limits on the structure of a regex. The package regexp/syntax,
-- `ToLower` and the environment are arguments; counts are of unbounded size.
pub mod Walk
mod Tests
use promptshield_beta.Base.{
  ℕ, Bool, suc, ◌+◌, ◌⊎◌, List, ◌||◌, if◌then◌else◌, ◌∷◌, inl, Option, none, ltb, [], some, inr,
  ◌++◌,
}
use promptshield_beta.Base.Int.{ℤ, ltb_int, pos, is_pos}
use promptshield_beta.Base.Text.{Str, bytes, same}
use promptshield_beta.Base.Decimal.{atoi}

-- What `walk` reads of a *syntax.Regexp. An alternation has at least one branch, and a repeat has
-- one operand.
mutual
  pub data Regexp : Type 0 where
    alternate : Regexp → Regexps → Regexp
    repeat : Regexp → Regexp
    other : Regexps → Regexp

  pub data Regexps : Type 0 where
    nil : Regexps
    cons : Regexp → Regexps → Regexps

pub record ComplexityScore : Type 0 where
  pub nodes : ℕ
  pub max_depth : ℕ
  pub alternations : ℕ
  pub repeats : ℕ

pub record ComplexityLimits : Type 0 where
  pub max_nodes : ℤ
  pub max_depth : ℤ
  pub max_alternations : ℤ
  pub max_repeats : ℤ

abbrev pub count : Regexps → ℕ
count nil = 0
count (cons r rs) = suc (count rs)

-- A node is counted, and its depth noted.
unfoldable pub visit : ℕ → ComplexityScore → ComplexityScore
visit depth s = record s {
  nodes = suc s.nodes;
  max_depth = if ltb s.max_depth depth then depth else s.max_depth;
}

-- The closure `walk`, with the score that it writes as its state.
unfoldable mutual
  unfolding visit

  pub walk : Regexp → ℕ → ComplexityScore → ComplexityScore
  walk (alternate r rs) depth s =
      let s' = visit depth s in
      walk_subs rs (depth + 1)
        (walk r (depth + 1) (record s' { alternations = s'.alternations + count rs }))
  walk (repeat r) depth s =
      let s' = visit depth s in walk r (depth + 2) (record s' { repeats = suc s'.repeats })
  walk (other rs) depth s = walk_subs rs (depth + 1) (visit depth s)

  pub walk_subs : Regexps → ℕ → ComplexityScore → ComplexityScore
  walk_subs nil depth s = s
  walk_subs (cons r rs) depth s = walk_subs rs depth (walk r depth s)

pub data ComplexityError : Type 0 where
  empty_regex : ComplexityError
  syntax_error : Str → ComplexityError
  too_complex : ComplexityScore → ComplexityLimits → ComplexityError

-- What the code calls: `syntax.Parse`, `Simplify`, `os.Getenv` and `strings.ToLower`.
pub record Calls : Type 0 where
  pub parse : Str → Str ⊎ Regexp
  pub simplify : Regexp → Regexp
  pub getenv : Str → Str
  pub to_lower : Str → Str

-- One variable, which counts where it is a positive number.
unfoldable pub env_limit : (Str → Str) → Str → ℤ → ℤ
env_limit getenv name default = elim (atoi (getenv name)) [
  | none ↦ default
  | some n ↦ if is_pos n then n else default
]

unfoldable pub limits_from_env : (Str → Str) → ComplexityLimits
unfolding env_limit
limits_from_env getenv = record {
  max_nodes = env_limit getenv (bytes "PS_MAX_REGEX_NODES") (pos 750);
  max_depth = env_limit getenv (bytes "PS_MAX_REGEX_DEPTH") (pos 30);
  max_alternations = env_limit getenv (bytes "PS_MAX_REGEX_ALTERNATIONS") (pos 300);
  max_repeats = env_limit getenv (bytes "PS_MAX_REGEX_REPEATS") (pos 1000);
}

unfoldable pub flag_prefix : (Str → Str) → List Str → Str → Str
flag_prefix to_lower [] prefix = prefix
flag_prefix to_lower (f ∷ fs) prefix =
    let g = to_lower f in
    flag_prefix to_lower fs (
      if same g (bytes "ignorecase") || same g (bytes "i")
      then bytes "(?i)" ++ prefix
      else if same g (bytes "multiline") || same g (bytes "m")
      then bytes "(?m)" ++ prefix
      else prefix)

unfoldable pub prefixed_regex : (Str → Str) → Str → List Str → Str
unfolding flag_prefix
prefixed_regex to_lower [] flags = []
prefixed_regex to_lower (b ∷ expr) flags = flag_prefix to_lower flags [] ++ b ∷ expr

unfoldable pub no_score : ComplexityScore
no_score = record { nodes = 0; max_depth = 0; alternations = 0; repeats = 0 }

unfoldable pub compute_regex_complexity : Calls → Str → List Str → ComplexityError ⊎ ComplexityScore
unfolding no_score
compute_regex_complexity c [] flags = inl empty_regex
compute_regex_complexity c (b ∷ expr) flags =
    elim (c.parse (prefixed_regex c.to_lower (b ∷ expr) flags)) [
      | inl e ↦ inl (syntax_error e)
      | inr r ↦ inr (walk (c.simplify r) 1 no_score)
    ]

-- score > limit, for one count.
unfoldable pub exceeds : ℕ → ℤ → Bool
exceeds n limit = ltb_int limit (pos n)

unfoldable pub is_too_complex : ComplexityScore → ComplexityLimits → Bool
unfolding exceeds
is_too_complex s l =
    exceeds s.nodes l.max_nodes
    || exceeds s.max_depth l.max_depth
    || exceeds s.alternations l.max_alternations
    || exceeds s.repeats l.max_repeats

-- CheckRegexComplexity: `none` is no error.
unfoldable pub check_regex_complexity : Calls → Str → List Str → Option ComplexityError
unfolding compute_regex_complexity limits_from_env is_too_complex
check_regex_complexity c expr flags =
    let lim = limits_from_env c.getenv in
    elim (compute_regex_complexity c expr flags) [
      | inl e ↦ some e
      | inr s ↦ if is_too_complex s lim then some (too_complex s lim) else none
    ]
