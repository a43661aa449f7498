-- ===== src/Scanner/Evaluate/Seen.antt =====
-- internal/scanner/evaluate.go: one violation for each key.
use promptshield_beta.Base.{List, ◌≡◌, false, ◌++◌, ◌∷◌, [], ℕ, length, arith, length-append}
use promptshield_beta.Scanner.Evaluate.{Violation, is_seen, State, CompiledRule, Scanner}
use promptshield_beta.Base.Text.{Str}
use promptshield_beta.Scanner.Evaluate.Regexes.{evaluate_line}
use promptshield_beta.Scanner.Evaluate.Lines.{evaluate_line-Holds, AllReport}

-- No key occurs twice.
abbrev pub NoRepeat : List Str → Type 0
NoRepeat [] = Unit
NoRepeat (k ∷ ks) = (is_seen k ks ≡ false) × NoRepeat ks

-- Every violation was reported under a key of its own.
abbrev pub OneEach : List Violation → List Str → Type 0
OneEach vs ks = (length vs ≡ length ks) × NoRepeat ks

-- No condition on what is reported.
abbrev Anything : Violation → Type 0
Anything v = Unit

-- Evaluating a line reports each violation under its own key: if there are as many violations as
-- keys and no key occurs twice before, the same holds after, whatever the rules, the matchers and
-- the regexes answer.
pub evaluate_line-OneEach :
    (s : Scanner) (text : Str) (line : ℕ) (st : State)
    → OneEach st.violations st.seen
    → OneEach (evaluate_line s text line st).0.violations (evaluate_line s text line st).0.seen
unfolding AllReport
evaluate_line-OneEach s text line st h =
    evaluate_line-Holds OneEach Anything grows s text line st (all s.compiled) h
  where
    grows :
        (vs : List Violation) (ks : List Str) (v : Violation) (k : Str)
        → is_seen k ks ≡ false
        → Anything v
        → OneEach vs ks
        → OneEach (vs ++ v ∷ []) (k ∷ ks)
    grows vs ks v k fresh u old = (omega (arith, length-append vs (v ∷ []), old.0), (fresh, old.1))

    all : (crs : List CompiledRule) → AllReport OneEach Anything grows s line crs
    all [] = tt
    all (cr ∷ crs) = (λ e. (λ c. tt, λ c. tt), all crs)
