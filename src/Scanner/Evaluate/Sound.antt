-- ===== src/Scanner/Evaluate/Sound.antt =====
-- internal/scanner/evaluate.go: where the violations of a line come from.
use promptshield_beta.Scanner.Evaluate.{
  Scanner, CompiledRule, Violation, context_matches, is_seen, plain, full, State,
}
use promptshield_beta.Base.{
  ℕ, List, ◌∷◌, ◌++◌, ◌≡◌, [], true, false, ◌⊎◌, ap, ◌∙◌, append_assoc, inl, Option-cases, inr,
  arith, refl, sym, append-nil,
}
use promptshield_beta.Base.Text.{Str}
use promptshield_beta.Scanner.Evaluate.Lines.{AllReport, evaluate_line-Holds}
use promptshield_beta.Scanner.Evaluate.Regexes.{evaluate_line}

-- The violation is that of one of the rules, which applies in the scanner's context, on the line.
unfoldable pub IsOf : Scanner → ℕ → List CompiledRule → Violation → Type 0
IsOf s line [] v = ⊥
IsOf s line (cr ∷ crs) v =
    ((context_matches s cr ≡ true)
      × (v.rule_id ≡ cr.id)
      × (v.severity ≡ cr.severity)
      × (v.message ≡ cr.message)
      × (v.line ≡ line))
    ⊎ IsOf s line crs v

-- Every violation of the list is of one of the rules.
unfoldable pub AllOf : Scanner → ℕ → List Violation → Type 0
AllOf s line [] = Unit
AllOf s line (v ∷ vs) = IsOf s line s.compiled v × AllOf s line vs

-- What was added to the violations that were there is all of the rules.
abbrev Extends : Scanner → ℕ → List Violation → List Violation → List Str → Type 0
Extends s line old vs ks = (new : List Violation) × (vs ≡ old ++ new) × AllOf s line new

AllOf-snoc :
    (s : Scanner) (line : ℕ) (vs : List Violation) (v : Violation)
    → IsOf s line s.compiled v
    → AllOf s line vs
    → AllOf s line (vs ++ v ∷ [])
unfolding AllOf
AllOf-snoc s line [] v h a = (h, tt)
AllOf-snoc s line (w ∷ vs) v h a = (a.0, AllOf-snoc s line vs v h a.1)

extends_more :
    (s : Scanner) (line : ℕ) (old vs : List Violation) (ks : List Str) (v : Violation) (k : Str)
    → is_seen k ks ≡ false
    → IsOf s line s.compiled v
    → Extends s line old vs ks
    → Extends s line old (vs ++ v ∷ []) (k ∷ ks)
extends_more s line old vs ks v k fresh h (new, e, a) = (
  new ++ v ∷ [],
  ap (λ (xs : List Violation). xs ++ v ∷ []) e ∙ append_assoc old new (v ∷ []),
  AllOf-snoc s line new v h a,
)

plain-IsOf :
    (s : Scanner) (line : ℕ) (cr : CompiledRule) (crs : List CompiledRule) (c : ℕ)
    → context_matches s cr ≡ true
    → IsOf s line (cr ∷ crs) (plain cr line c)
unfolding IsOf plain
plain-IsOf s line cr crs c e = inl (e, refl, refl, refl, refl)

full-IsOf :
    (s : Scanner) (line : ℕ) (cr : CompiledRule) (crs : List CompiledRule) (c : ℕ)
    → context_matches s cr ≡ true
    → IsOf s line (cr ∷ crs) (full cr line c)
unfolding IsOf full plain
full-IsOf s line cr crs c e = elim (Option-cases cr.response) [
  | inl r ↦ inl (e, ground (arith, r), ground (arith, r), ground (arith, r), ground (arith, r))
  | inr (a, r) ↦ inl (e, ground (arith, r), ground (arith, r), ground (arith, r), ground (arith, r))
]

all_report :
    (s : Scanner) (line : ℕ) (old : List Violation) (crs : List CompiledRule)
    → ((v : Violation) → IsOf s line crs v → IsOf s line s.compiled v)
    → AllReport (Extends s line old) (IsOf s line s.compiled) (extends_more s line old) s line crs
unfolding AllReport IsOf
all_report s line old [] within = tt
all_report s line old (cr ∷ crs) within = (
  λ e. (
    λ c. within (plain cr line c) (plain-IsOf s line cr crs c e),
    λ c. within (full cr line c) (full-IsOf s line cr crs c e),
  ),
  all_report s line old crs (λ v h. within v (inr h)),
)

-- Evaluating a line only appends violations, and each of them is of a rule of the scanner that
-- applies in its context, with that rule's id, severity and message and the line's number, whatever
-- the matchers, the regexes and the semantic evaluation answer.
pub evaluate_line-appends :
    (s : Scanner) (text : Str) (line : ℕ) (st : State)
    → (new : List Violation) × ((evaluate_line s text line st).0.violations ≡ st.violations ++ new)
      × AllOf s line new
evaluate_line-appends s text line st =
    evaluate_line-Holds (Extends s line st.violations) (IsOf s line s.compiled)
      (extends_more s line st.violations) s text line st
      (all_report s line st.violations s.compiled (λ v h. h))
      ([], sym (append-nil st.violations), unfold AllOf in tt)
