-- ===== src/Scanner/Evaluate/Lines.antt =====
-- internal/scanner/evaluate.go: what every function that reports violations keeps.
use promptshield_beta.Base.{
  List, ◌≡◌, false, ◌++◌, ◌∷◌, [], Bool, ℕ, none, if◌then◌else◌, ◌&&◌, not, length, Option, suc,
  ◌+◌, arith, ◌==◌, some, true, get_elem?,
}
use promptshield_beta.Scanner.Evaluate.{
  Violation, is_seen, State, report, CompiledRule, Hit, Scanner, plain, full, is_gated,
  context_matches, line_key,
}
use promptshield_beta.Base.Text.{Str}
use promptshield_beta.Scanner.Evaluate.Keywords.{eval_keywords, column_of}
use promptshield_beta.Scanner.Evaluate.Regexes.{
  match_loop, regex_loop, eval_regexes, try_regexes, count_skip, try_semantic, eval_rule, rule_loop,
  evaluate_line, all_regex_key, earliest_loop, on_match, passes, slice, regex_key,
}
use promptshield_beta.Base.Int.{same_int, pos}
use promptshield_beta.Scanner.Evaluate.Holds.{
  Holds, choose, choose3, choose_state, report-Holds, eval_keywords-Holds, Reports,
}

-- The rest of the functions keep it too.
module _ (P : List Violation → List Str → Type 0) (Good : Violation → Type 0)
    (grows : (vs : List Violation) (ks : List Str) (v : Violation) (k : Str)
      → is_seen k ks ≡ false
      → Good v
      → P vs ks
      → P (vs ++ v ∷ []) (k ∷ ks)) where
  on_match-Holds :
      (s : Scanner) (cr : CompiledRule) (text : Str) (line : ℕ) (verifier : Option Str)
      (loc : ℕ × ℕ) (acc : State × Bool × ℕ)
      → Reports P Good grows cr line
      → Holds P Good grows acc.0
      → Holds P Good grows (on_match s cr text line verifier loc acc).0
  unfolding on_match
  on_match-Holds s cr text line verifier (from, to) acc g h =
      choose3 P Good grows
        (passes s verifier (slice text from to)
          && (report (regex_key cr line from) (full cr line (from + 1)) acc.0).1)
        ((report (regex_key cr line from) (full cr line (from + 1)) acc.0).0, true, from + 1) acc
        (λ e.
          report-Holds P Good grows (regex_key cr line from) (full cr line (from + 1)) acc.0
            (g.1 (from + 1)) h)
        (λ e. h)

  match_loop-Holds :
      (s : Scanner) (cr : CompiledRule) (text : Str) (line : ℕ) (verifier : Option Str)
      (locs : List (ℕ × ℕ)) (acc : State × Bool × ℕ)
      → Reports P Good grows cr line
      → Holds P Good grows acc.0
      → Holds P Good grows (match_loop s cr text line verifier locs acc).0
  unfolding match_loop
  match_loop-Holds s cr text line verifier [] acc g h = h
  match_loop-Holds s cr text line verifier (loc ∷ locs) acc g h =
      match_loop-Holds s cr text line verifier locs _ g
        (on_match-Holds s cr text line verifier loc acc g h)

  regex_loop-Holds :
      (s : Scanner) (cr : CompiledRule) (text : Str) (line i : ℕ) (rxs : List Str)
      (acc : State × Bool × ℕ)
      → Reports P Good grows cr line
      → Holds P Good grows acc.0
      → Holds P Good grows (regex_loop s cr text line i rxs acc).0
  unfolding regex_loop
  regex_loop-Holds s cr text line i [] acc g h = h
  regex_loop-Holds s cr text line i (rx ∷ rxs) acc g h =
      regex_loop-Holds s cr text line (suc i) rxs
        (match_loop s cr text line (get_elem? cr.verifiers i) (s.find_all rx text) acc) g
        (match_loop-Holds s cr text line (get_elem? cr.verifiers i) (s.find_all rx text) acc g h)

  eval_regexes-Holds :
      (s : Scanner) (cr : CompiledRule) (text : Str) (line : ℕ) (st : State)
      → Reports P Good grows cr line
      → Holds P Good grows st
      → Holds P Good grows (eval_regexes s cr text line st).0
  unfolding eval_regexes
  eval_regexes-Holds s cr text line st g h =
      choose3 P Good grows _ _ _ (λ e. required (earliest_loop s text cr.regexes none))
        (λ e. regex_loop-Holds s cr text line 0 cr.regexes (st, false, 1) g h)
    where
      required :
          (o : Option (Option ℕ))
          → Holds P Good grows
              (elim o as (λ x. State × Bool × ℕ) [
                | none ↦ (st, false, 1)
                | some earliest ↦
                    let col = column_of earliest in
                    let res = report (all_regex_key cr line) (plain cr line col) st in
                    (res.0, res.1, if res.1 then col else 1)
              ]).0
      required none = h
      required (some earliest) =
          report-Holds P Good grows (all_regex_key cr line) (plain cr line (column_of earliest)) st
            (g.0 (column_of earliest)) h

  try_regexes-Holds :
      (s : Scanner) (cr : CompiledRule) (lower text : Str) (line : ℕ) (st : State)
      → Reports P Good grows cr line
      → Holds P Good grows st
      → Holds P Good grows (try_regexes s cr lower text line st).0
  unfolding try_regexes
  try_regexes-Holds s cr lower text line st g h =
      choose3 P Good grows _ (eval_regexes s cr text line tried) (st, false, 1)
        (λ e. eval_regexes-Holds s cr text line tried g (unfold Holds in h)) (λ e. h)
    where
      tried : State
      tried = record st { regex_attempts = st.regex_attempts + 1 }

  count_skip-Holds :
      (s : Scanner) (cr : CompiledRule) (lower : Str) (st : State)
      → Holds P Good grows st
      → Holds P Good grows (count_skip s cr lower st)
  unfolding count_skip
  count_skip-Holds s cr lower st h =
      choose_state P Good grows (not (length cr.regexes == 0) && is_gated s cr lower)
        (record st { regex_skipped = st.regex_skipped + 1 }) st (λ e. unfold Holds in h) (λ e. h)

  try_semantic-Holds :
      (s : Scanner) (cr : CompiledRule) (lower text : Str) (line : ℕ) (st : State)
      → Reports P Good grows cr line
      → Holds P Good grows st
      → Holds P Good grows (try_semantic s cr lower text line st).0
  unfolding try_semantic
  try_semantic-Holds s cr lower text line st g h =
      choose P Good grows (not (same_int cr.level (pos 3))) (st, false) _ (λ e. h)
        (λ e.
          choose P Good grows (is_gated s cr lower) (skipped, false) _ (λ e. unfold Holds in h)
            (λ e.
              choose P Good grows (s.semantic cr text 1).0
                (report (line_key cr line) (plain cr line (s.semantic cr text 1).1) asked)
                (asked, false)
                (λ e.
                  report-Holds P Good grows _ _ asked (g.0 (s.semantic cr text 1).1)
                    (unfold Holds in h))
                (λ e. unfold Holds in h)))
    where
      skipped : State
      skipped = record st { semantic_skipped = st.semantic_skipped + 1 }

      asked : State
      asked = record st { semantic_attempts = st.semantic_attempts + 1 }

  eval_rule-Holds :
      (s : Scanner) (hits : Option (List Hit)) (lower text : Str) (line : ℕ) (cr : CompiledRule)
      (st : State)
      → (context_matches s cr ≡ true → Reports P Good grows cr line)
      → Holds P Good grows st
      → Holds P Good grows (eval_rule s hits lower text line cr st).0
  unfolding eval_rule
  eval_rule-Holds s hits lower text line cr st good h =
      choose P Good grows (not (context_matches s cr)) (st, false) _ (λ e. h)
        (λ e. included (good (ground (arith, e))))
    where
      kw_result : State × Bool
      kw_result =
          if length cr.keywords == 0
          then (st, false)
          else eval_keywords s.first_match hits cr lower text line st

      rx_result : State × Bool × ℕ
      rx_result = try_regexes s cr lower text line kw_result.0

      kw : Reports P Good grows cr line → Holds P Good grows kw_result.0
      kw g =
          choose P Good grows (length cr.keywords == 0) (st, false) _ (λ e. h)
            (λ e. eval_keywords-Holds P Good grows s.first_match hits cr lower text line st g h)

      rx : Reports P Good grows cr line → Holds P Good grows rx_result.0
      rx g = try_regexes-Holds s cr lower text line kw_result.0 g (kw g)

      included :
          Reports P Good grows cr line
          → Holds P Good grows
              (if kw_result.1
                then kw_result
                else if rx_result.1
                then (rx_result.0, true)
                else try_semantic s cr lower text line (count_skip s cr lower rx_result.0)).0
      included g =
          choose P Good grows kw_result.1 kw_result _ (λ e. kw g)
            (λ e.
              choose P Good grows rx_result.1 (rx_result.0, true)
                (try_semantic s cr lower text line (count_skip s cr lower rx_result.0)) (λ e. rx g)
                (λ e.
                  try_semantic-Holds s cr lower text line _ g
                    (count_skip-Holds s cr lower _ (rx g))))

  -- Whatever the rules that apply report is good.
  unfoldable pub AllReport : Scanner → ℕ → List CompiledRule → Type 0
  AllReport s line [] = Unit
  AllReport s line (cr ∷ crs) =
      (context_matches s cr ≡ true → Reports P Good grows cr line) × AllReport s line crs

  rule_loop-Holds :
      (s : Scanner) (hits : Option (List Hit)) (lower text : Str) (line : ℕ)
      (crs : List CompiledRule) (st : State)
      → AllReport s line crs
      → Holds P Good grows st
      → Holds P Good grows (rule_loop s hits lower text line crs st).0
  unfolding rule_loop AllReport
  rule_loop-Holds s hits lower text line [] st good h = h
  rule_loop-Holds s hits lower text line (cr ∷ crs) st good h =
      let now = eval_rule-Holds s hits lower text line cr st good.0 h in
      choose P Good grows ((eval_rule s hits lower text line cr st).1 && s.first_match) _ _
        (λ e. now) (λ e. rule_loop-Holds s hits lower text line crs _ good.1 now)

  pub evaluate_line-Holds :
      (s : Scanner) (text : Str) (line : ℕ) (st : State)
      → AllReport s line s.compiled
      → P st.violations st.seen
      → P (evaluate_line s text line st).0.violations (evaluate_line s text line st).0.seen
  unfolding evaluate_line
  evaluate_line-Holds s text line st good h =
      unfold Holds in rule_loop-Holds s _ (s.to_lower text) text line s.compiled st good h
