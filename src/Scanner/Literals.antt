-- ===== src/Scanner/Literals.antt =====
-- internal/scanner/regex_literals.go: the tokens that a regex is taken to need, which gate its
-- evaluation. `minTokenLen` is an argument.
pub mod Tokens
pub mod Extract
mod Tests
use promptshield_beta.Base.{
  ℕ, List, Bool, [], leb, if◌then◌else◌, map, Option, false, ◌∷◌, none, ◌&&◌, ◌+◌, some, ◌==◌, ◌++◌,
  ◌||◌, length, true,
}
use promptshield_beta.Base.Text.{Str, bytes}
use promptshield_beta.Scanner.Evaluate.{is_seen}

unfoldable pub is_upper : ℕ → Bool
is_upper b = leb b'A' b && leb b b'Z'

unfoldable pub is_token_char : ℕ → Bool
unfolding is_upper
is_token_char b =
    leb b'a' b && leb b b'z' || is_upper b || leb b'0' b && leb b b'9' || b == b'_' || b == b'-'

unfoldable pub lower_byte : ℕ → ℕ
unfolding is_upper
lower_byte b = if is_upper b then b + 32 else b

unfoldable pub to_lower : Str → Str
unfolding lower_byte
to_lower s = map lower_byte s

-- The variables of the loop. `run` is `expr[start:i]`, and `none` where `start` is -1.
pub record Walk : Type 0 where
  pub tokens : List Str
  pub in_class : Bool
  pub escaped : Bool
  pub run : Option Str

-- The run ends here, and is a token if it is long enough.
unfoldable pub with_run : ℕ → Option Str → List Str → List Str
unfolding to_lower
with_run least none ts = ts
with_run least (some t) ts = if leb least (length t) then ts ++ to_lower t ∷ [] else ts

unfoldable pub end_run : ℕ → Walk → Walk
unfolding with_run
end_run least w = record w { tokens = with_run least w.run w.tokens; run = none }

-- The index moves on while `start` stays.
unfoldable pub longer : ℕ → Option Str → Option Str
longer c none = none
longer c (some t) = some (t ++ c ∷ [])

unfoldable pub keep_byte : ℕ → Walk → Walk
unfolding longer
keep_byte c w = record w { run = longer c w.run }

-- The byte begins a run, if there is none.
unfoldable pub begun : ℕ → Option Str → Option Str
begun c none = some (c ∷ [])
begun c (some t) = some (t ++ c ∷ [])

unfoldable pub begin_run : ℕ → Walk → Walk
unfolding begun
begin_run c w = record w { run = begun c w.run }

abbrev pub is_in : ℕ → Str → Bool
is_in c [] = false
is_in c (b ∷ s) = c == b || is_in c s

unfoldable pub is_meta : ℕ → Bool
is_meta c = is_in c (bytes "^$.*+?{}()|")

unfoldable pub is_running : Walk → Bool
is_running w = elim w.run [ none ↦ false | some t ↦ true ]

-- One round of the loop. A run before a class is measured against 4.
unfoldable pub walk_byte : ℕ → ℕ → Walk → Walk
unfolding end_run keep_byte begin_run is_running
walk_byte least c w =
    if w.escaped
    then record (end_run least w) { escaped = false }
    else if c == b'\\'
    then record (keep_byte c w) { escaped = true }
    else if c == b'['
    then end_run 4 (record w { in_class = true })
    else if c == b']' && w.in_class
    then record (keep_byte c w) { in_class = false }
    else if w.in_class
    then keep_byte c w
    else if is_meta c
    then end_run least w
    else if is_token_char c
    then begin_run c w
    else if c == b'-' && is_running w
    then keep_byte c w
    else end_run least w

unfoldable pub walk : ℕ → Str → Walk → Walk
unfolding walk_byte
walk least [] w = w
walk least (c ∷ s) w = walk least s (walk_byte least c w)

-- The strings that are not in the map yet.
unfoldable pub dedupe_loop : List Str → List Str → List Str
unfolding is_seen
dedupe_loop known [] = []
dedupe_loop known (s ∷ ss) = elim (is_seen s known) [
  | true ↦ dedupe_loop known ss
  | false ↦ s ∷ dedupe_loop (s ∷ known) ss
]

unfoldable pub dedupe : List Str → List Str
unfolding dedupe_loop
dedupe ss = dedupe_loop [] ss

unfoldable pub no_walk : Walk
no_walk = record { tokens = []; in_class = false; escaped = false; run = none }

-- extractLiteralTokensFromRegex
unfoldable pub extract_tokens : ℕ → Str → List Str
unfolding dedupe walk no_walk
extract_tokens least expr = dedupe (end_run least (walk least expr no_walk)).tokens

unfoldable pub lower_flags : List Str → Str
unfolding to_lower
lower_flags [] = []
lower_flags (f ∷ fs) = to_lower f ++ b',' ∷ lower_flags fs

-- cacheKey, on flags of ASCII.
unfoldable pub cache_key : Str → List Str → Str
unfolding lower_flags
cache_key expr [] = expr
cache_key expr (f ∷ fs) = expr ++ bytes "::" ++ lower_flags (f ∷ fs)
