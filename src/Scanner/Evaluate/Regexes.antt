-- ===== src/Scanner/Evaluate/Regexes.antt =====
-- `evalRegexesStandard` of internal/scanner/evaluate.go, and `evaluateLine`.
use promptshield_beta.Scanner.Evaluate.{
  line_key, Scanner, report, is_gated, context_matches, CompiledRule, full, plain, State, Hit,
}
use promptshield_beta.Base.{
  Option, ℕ, List, ◌++◌, some, take, if◌then◌else◌, ◌∷◌, ◌-◌, Bool, ltb, drop, suc, none, not, ◌+◌,
  length, false, true, get_elem?, ◌&&◌, ◌==◌, [], ◌||◌,
}
use promptshield_beta.Base.Text.{Str, bytes, same}
use promptshield_beta.Scanner.Evaluate.Keywords.{eval_keywords, column_of}
use promptshield_beta.Base.Decimal.{decimal}
use promptshield_beta.Base.Int.{same_int, pos, ltb_int}
use promptshield_beta.Scanner.Verifiers.{
  luhn_check, ssn_valid, ssn_area_valid, iban_valid, email_valid,
}

-- "id|line|rx|index" and "id|line|rx|all"
unfoldable pub regex_key : CompiledRule → ℕ → ℕ → Str
unfolding line_key
regex_key cr line idx = line_key cr line ++ bytes "|rx|" ++ decimal idx

unfoldable pub all_regex_key : CompiledRule → ℕ → Str
unfolding line_key
all_regex_key cr line = line_key cr line ++ bytes "|rx|all"

unfoldable pub least : Option ℕ → ℕ → Option ℕ
least none i = some i
least (some e) i = if ltb i e then some i else some e

-- The loop that requires all regexes: the earliest index, or none where one has no match.
unfoldable pub earliest_loop : Scanner → Str → List Str → Option ℕ → Option (Option ℕ)
unfolding least
earliest_loop s text [] earliest = some earliest
earliest_loop s text (rx ∷ rxs) earliest = elim (s.find_first rx text) [
  | none ↦ none
  | some i ↦ earliest_loop s text rxs (least earliest i)
]

-- line[from:to]
unfoldable pub slice : Str → ℕ → ℕ → Str
slice text from to = take (to - from) (drop from text)

-- The verifier of the pattern, if it has one; a name that is none of these accepts every text.
unfoldable pub verify : Scanner → Str → Str → Bool
verify s name text =
    if same name (bytes "luhn")
    then luhn_check s.is_digit (s.runes text)
    else if same name (bytes "ssn")
    then ssn_valid s.is_digit (s.runes text)
    else if same name (bytes "ssn_area")
    then ssn_area_valid s.is_digit (s.runes text)
    else if same name (bytes "iban")
    then iban_valid s.is_digit s.is_letter s.to_upper (s.runes text)
    else if same name (bytes "email")
    then email_valid text
    else true

unfoldable pub passes : Scanner → Option Str → Str → Bool
unfolding verify
passes s none text = true
passes s (some name) text = verify s name text

-- The body of the loop over the matches of one regex: `matched` and `matchCol` with the state.
unfoldable pub on_match :
    Scanner → CompiledRule → Str → ℕ → Option Str → ℕ × ℕ → State × Bool × ℕ → State × Bool × ℕ
unfolding slice passes report regex_key full
on_match s cr text line verifier (from, to) acc =
    let res = report (regex_key cr line from) (full cr line (from + 1)) acc.0 in
    if passes s verifier (slice text from to) && res.1 then (res.0, true, from + 1) else acc

unfoldable pub match_loop :
    Scanner
    → CompiledRule
    → Str
    → ℕ
    → Option Str
    → List (ℕ × ℕ)
    → State × Bool × ℕ
    → State × Bool × ℕ
unfolding on_match
match_loop s cr text line verifier [] acc = acc
match_loop s cr text line verifier (loc ∷ locs) acc =
    match_loop s cr text line verifier locs (on_match s cr text line verifier loc acc)

-- The loop over the regexes from the i-th on.
unfoldable pub regex_loop :
    Scanner → CompiledRule → Str → ℕ → ℕ → List Str → State × Bool × ℕ → State × Bool × ℕ
unfolding match_loop
regex_loop s cr text line i [] acc = acc
regex_loop s cr text line i (rx ∷ rxs) acc =
    regex_loop s cr text line (suc i) rxs
      (match_loop s cr text line (get_elem? cr.verifiers i) (s.find_all rx text) acc)

unfoldable pub eval_regexes : Scanner → CompiledRule → Str → ℕ → State → State × Bool × ℕ
unfolding earliest_loop regex_loop report all_regex_key plain column_of
eval_regexes s cr text line st =
    let required = elim (earliest_loop s text cr.regexes none) as (λ x. State × Bool × ℕ) [
      | none ↦ (st, false, 1)
      | some earliest ↦
          let col = column_of earliest in
          let res = report (all_regex_key cr line) (plain cr line col) st in
          (res.0, res.1, if res.1 then col else 1)
    ] in
    if cr.require_all && not (length cr.regexes == 0)
    then required
    else regex_loop s cr text line 0 cr.regexes (st, false, 1)

-- The regexes of a rule on a line: skipped on a line that is too long, or that has none of the
-- rule's tokens.
unfoldable pub try_regexes : Scanner → CompiledRule → Str → Str → ℕ → State → State × Bool × ℕ
unfolding eval_regexes is_gated
try_regexes s cr lower text line st =
    let short =
      same_int s.max_line_for_regex (pos 0)
      || not (ltb_int s.max_line_for_regex (pos (length text))) in
    if not (length cr.regexes == 0) && short && not (is_gated s cr lower)
    then eval_regexes s cr text line (record st { regex_attempts = st.regex_attempts + 1 })
    else (st, false, 1)

unfoldable pub count_skip : Scanner → CompiledRule → Str → State → State
unfolding is_gated
count_skip s cr lower st =
    if not (length cr.regexes == 0) && is_gated s cr lower
    then record st { regex_skipped = st.regex_skipped + 1 }
    else st

-- Level 3, for a rule that has not matched.
unfoldable pub try_semantic : Scanner → CompiledRule → Str → Str → ℕ → State → State × Bool
unfolding is_gated report line_key plain
try_semantic s cr lower text line st =
    let answer = s.semantic cr text 1 in
    let asked = record st { semantic_attempts = st.semantic_attempts + 1 } in
    if not (same_int cr.level (pos 3))
    then (st, false)
    else if is_gated s cr lower
    then (record st { semantic_skipped = st.semantic_skipped + 1 }, false)
    else if answer.0
    then report (line_key cr line) (plain cr line answer.1) asked
    else (asked, false)

-- The loop body for one rule; the second component tells whether the rule matched.
unfoldable pub eval_rule :
    Scanner → Option (List Hit) → Str → Str → ℕ → CompiledRule → State → State × Bool
unfolding context_matches eval_keywords try_regexes count_skip try_semantic
eval_rule s hits lower text line cr st =
    let kw =
      if length cr.keywords == 0
      then (st, false)
      else eval_keywords s.first_match hits cr lower text line st in
    let rx = try_regexes s cr lower text line kw.0 in
    if not (context_matches s cr)
    then (st, false)
    else if kw.1
    then kw
    else if rx.1
    then (rx.0, true)
    else try_semantic s cr lower text line (count_skip s cr lower rx.0)

unfoldable pub rule_loop :
    Scanner → Option (List Hit) → Str → Str → ℕ → List CompiledRule → State → State × Bool
unfolding eval_rule
rule_loop s hits lower text line [] st = (st, false)
rule_loop s hits lower text line (cr ∷ crs) st =
    let res = eval_rule s hits lower text line cr st in
    let rest = rule_loop s hits lower text line crs res.0 in
    if res.1 && s.first_match then (res.0, true) else (rest.0, res.1 || rest.1)

unfoldable pub evaluate_line : Scanner → Str → ℕ → State → State × Bool
unfolding rule_loop
evaluate_line s text line st =
    let lower = s.to_lower text in
    let hits : Option (List Hit) = elim s.aho [ none ↦ none | some find ↦ some (find lower) ] in
    rule_loop s hits lower text line s.compiled st
