-- ===== src/Scanner/Compile/Kept.antt =====
-- internal/scanner/rule_eval.go: every pattern is compiled or reported, and verifiers stay beside
-- their regexes.
use promptshield_beta.Scanner.Compile.{
  Progress, Calls, Defaults, with_error, add_pattern, RegexError, keep_regex, on_pattern,
  pattern_loop, keep_fallback, fallback_loop, on_fallback, longer_than, too_complex, compile_regex,
  patterns_done, compile_rules, fallback_patterns, compiled_of, nothing_done,
}
use promptshield_beta.Base.{
  ℕ, length, ◌+◌, ◌≡◌, arith, Bool, length-append, ◌∷◌, [], suc, ◌⊎◌, if-holds, List, ltb, inl,
  false, true, inr, some, none, map, ap, refl,
}
use promptshield_beta.Base.Text.{Str}
use promptshield_beta.Rules.Types.{Pattern, Rule}
use promptshield_beta.Base.Decimal.{trim_space}
use promptshield_beta.Base.Int.{pos}
use promptshield_beta.Scanner.Evaluate.{CompiledRule}

-- After n more patterns, of which the regexes and the errors are kept in one list each.
module _ {C : Type 0} where
  abbrev pub IsParallel : Progress C → Type 0
  IsParallel p = length p.regexes ≡ length p.verifiers

  abbrev pub Kept : ℕ → Progress C → Progress C → Type 0
  Kept n p q =
      (length q.regexes + length q.fallback_regexes + length q.errors
        ≡ length p.regexes + length p.fallback_regexes + length p.errors + n)
      × (IsParallel p → IsParallel q)

  Kept-suc : (n : ℕ) (p q r : Progress C) → Kept 1 p q → Kept n q r → Kept (suc n) p r
  Kept-suc n p q r (e, f) (e', f') = (omega (arith, e, e'), λ h. f' (f h))

  Kept-trans : (n m : ℕ) (p q r : Progress C) → Kept n p q → Kept m q r → Kept (n + m) p r
  Kept-trans n m p q r (e, f) (e', f') = (omega (arith, e, e'), λ h. f' (f h))

module _ {C : Type 0} (k : Calls C) (d : Defaults) (id : Str) where
  with_error-Kept :
      (in_fallback : Bool) (i : ℕ) (e : RegexError) (p : Progress C)
      → Kept 1 p (with_error k d id in_fallback i e p)
  unfolding with_error
  with_error-Kept b i e p = (omega (arith, length-append p.errors (_ ∷ [])), λ h. h)

  keep_regex-Kept :
      (i : ℕ) (pat : Pattern) (x : RegexError ⊎ Str) (p : Progress C)
      → Kept 1 p (keep_regex k d id i pat x p)
  unfolding keep_regex
  keep_regex-Kept i pat (inl e) p = with_error-Kept false i e p
  keep_regex-Kept i pat (inr rx) p =
      let v = k.to_lower (trim_space pat.verifier) in
      (
        omega (arith, length-append p.regexes (rx ∷ [])),
        λ h.
            omega (arith, h, length-append p.regexes (rx ∷ []), length-append p.verifiers (v ∷ [])),
      )

  on_pattern-Kept : (i : ℕ) (pat : Pattern) (p : Progress C) → Kept 1 p (on_pattern k d id i pat p)
  unfolding on_pattern add_pattern
  on_pattern-Kept i pat p =
      if-holds (Kept 1 p) (ltb 1000 (length pat.regex)) _ _
        (λ e. with_error-Kept false i (longer_than (pos 1000)) p)
        (λ e.
          elim (k.check_complexity pat.regex pat.flags)
            as (λ x. Kept 1 p (elim x as (λ y. Progress C) [
              | some e ↦ with_error k d id false i (too_complex e) p
              | none ↦ add_pattern k d id i pat p
            ])) [
              | some e ↦ with_error-Kept false i (too_complex e) p
              | none ↦ keep_regex-Kept i pat _ _
            ])

  pattern_loop-Kept :
      (i : ℕ) (pats : List Pattern) (p : Progress C)
      → Kept (length pats) p (pattern_loop k d id i pats p)
  unfolding pattern_loop
  pattern_loop-Kept i [] p = (omega arith, λ h. h)
  pattern_loop-Kept i (pat ∷ pats) p =
      Kept-suc (length pats) p (on_pattern k d id i pat p)
        (pattern_loop k d id (suc i) pats (on_pattern k d id i pat p)) (on_pattern-Kept i pat p)
        (pattern_loop-Kept (suc i) pats (on_pattern k d id i pat p))

  keep_fallback-Kept :
      (i : ℕ) (x : RegexError ⊎ Str) (p : Progress C) → Kept 1 p (keep_fallback k d id i x p)
  unfolding keep_fallback
  keep_fallback-Kept i (inl e) p = with_error-Kept true i e p
  keep_fallback-Kept i (inr rx) p =
      (omega (arith, length-append p.fallback_regexes (rx ∷ [])), λ h. h)

  fallback_loop-Kept :
      (i : ℕ) (pats : List Pattern) (p : Progress C)
      → Kept (length pats) p (fallback_loop k d id i pats p)
  unfolding fallback_loop on_fallback
  fallback_loop-Kept i [] p = (omega arith, λ h. h)
  fallback_loop-Kept i (pat ∷ pats) p =
      Kept-suc (length pats) p (on_fallback k d id i pat p)
        (fallback_loop k d id (suc i) pats (on_fallback k d id i pat p))
        (keep_fallback-Kept i (compile_regex k d.max_pattern_length p.cache pat.regex pat.flags).0
          (record p {
            cache = (compile_regex k d.max_pattern_length p.cache pat.regex pat.flags).1;
          }))
        (fallback_loop-Kept (suc i) pats (on_fallback k d id i pat p))

module _ {C : Type 0} (k : Calls C) (d : Defaults) where
  pub patterns_done-Kept :
      (cache : C) (r : Rule)
      → Kept
          (length r.patterns + length (fallback_patterns r))
          (nothing_done cache)
          (patterns_done k d cache r)
  unfolding patterns_done
  patterns_done-Kept cache r =
      let start = nothing_done cache in
      let middle = pattern_loop k d r.id 0 r.patterns start in
      Kept-trans (length r.patterns) (length (fallback_patterns r)) start middle
        (fallback_loop k d r.id 0 (fallback_patterns r) middle)
        (pattern_loop-Kept k d r.id 0 r.patterns start)
        (fallback_loop-Kept k d r.id 0 (fallback_patterns r) middle)

abbrev pub kept_count : List CompiledRule → ℕ
kept_count [] = 0
kept_count (cr ∷ crs) = length cr.regexes + length cr.fallback_regexes + kept_count crs

abbrev pub pattern_count : List Rule → ℕ
pattern_count [] = 0
pattern_count (r ∷ rs) = length r.patterns + length (fallback_patterns r) + pattern_count rs

abbrev pub AllParallel : List CompiledRule → Type 0
AllParallel [] = Unit
AllParallel (cr ∷ crs) = (length cr.regexes ≡ length cr.verifiers) × AllParallel crs

-- Compiling keeps the rules: there is one compiled rule for each, with its identifier and in its
-- order, each has as many verifiers as regexes, and every pattern of a rule or of its fallback
-- gives a regex or an error, whatever the cache and the compiler answer.
pub compile_rules_lem :
    {C : Type 0} (k : Calls C) (d : Defaults) (cache : C) (rs : List Rule)
    → let out = compile_rules k d cache rs in
      (map (λ (cr : CompiledRule). cr.id) out.0 ≡ map (λ (r : Rule). r.id) rs)
      × AllParallel out.0
      × (kept_count out.0 + length out.1 ≡ pattern_count rs)
unfolding compile_rules compiled_of
compile_rules_lem k d cache [] = (refl, tt, omega arith)
compile_rules_lem k d cache (r ∷ rs) =
    let p = patterns_done k d cache r in
    let (ids, parallel, total) = compile_rules_lem k d p.cache rs in
    let (own, beside) = patterns_done-Kept k d cache r in
    let errs = length-append p.errors (compile_rules k d p.cache rs).1 in
    (ap (λ x. r.id ∷ x) ids, (beside refl, parallel), omega (arith, total, own, errs))
