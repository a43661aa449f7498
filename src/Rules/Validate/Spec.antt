-- ===== src/Rules/Validate/Spec.antt =====
-- internal/rules/validate.go: which packs ValidatePack finds no error in.
use promptshield_beta.Base.Int.{negsuc, ℤ, same_int, ltb_int}
use promptshield_beta.Rules.Validate.{
  Calls, check_pattern, check_patterns, check_timeout, check_semantic, compile_regex_strict,
  first_invalid, PackError, check_rule, need_patterns, check_rules, check_ids, validate_pack,
  check_schema,
}
use promptshield_beta.Rules.Complexity.{check_regex_complexity, prefixed_regex}
use promptshield_beta.Base.{
  [], ◌∷◌, ◌++◌, List, ◌≢◌, length, none, some, Option, ◌≡◌, ◌≤◌, arith, ◌↔◌, refl, ◌⊎◌, false,
  true, ap, inr, ◌||◌, suc, inl, zero, sym, ◌∙◌,
}
use promptshield_beta.Rules.Types.{Pattern, Semantic, Rule, RulePack}
use promptshield_beta.Base.Text.{Str, same_iff}
use promptshield_beta.Base.Int.{pos}
use promptshield_beta.Base.Decimal.{trim_space}
use promptshield_beta.Rules.Merge.Order.{Unique}
use promptshield_beta.Rules.Validate.Ids.{HaveIds, ids_of, check_ids-valid, nothing_seen}

-- A pattern of a rule of level 2.
abbrev pub IsValidPattern : Calls → Pattern → Type 0
IsValidPattern c p =
    (length p.regex ≤ 1000)
    × (p.regex ≢ [])
    × (first_invalid c.complexity.to_lower p.flags ≡ none)
    × (c.compile (prefixed_regex c.complexity.to_lower p.regex p.flags) ≡ none)
    × (check_regex_complexity c.complexity p.regex p.flags ≡ none)

abbrev pub AreValidPatterns : Calls → List Pattern → Type 0
AreValidPatterns c [] = Unit
AreValidPatterns c (p ∷ ps) = IsValidPattern c p × AreValidPatterns c ps

-- A model that is not blank.
abbrev pub HasModel : Option Semantic → Type 0
HasModel none = ⊥
HasModel (some s) = trim_space s.model ≢ []

-- What a level asks of a rule.
abbrev pub IsValidRule : Calls → Rule → Type 0
IsValidRule c r =
    ((r.level ≡ pos 1) × (r.keywords ≢ []))
    ⊎ ((r.level ≡ pos 2)
        × (r.patterns ≢ [])
        × AreValidPatterns c r.patterns
        × ((r.timeout ≡ []) ⊎ (c.parse_duration r.timeout ≡ none)))
    ⊎ ((r.level ≡ pos 3) × HasModel r.semantic)

abbrev pub AreValidRules : Calls → List Rule → Type 0
AreValidRules c [] = Unit
AreValidRules c (r ∷ rs) = IsValidRule c r × AreValidRules c rs

append-none : {A : Type 0} → (xs ys : List A) → xs ++ ys ≡ [] → (xs ≡ []) × (ys ≡ [])
append-none [] ys h = (refl, h)
append-none (x ∷ xs) ys h = ground (arith, h)

none-append : {A : Type 0} → (xs ys : List A) → xs ≡ [] → ys ≡ [] → xs ++ ys ≡ []
none-append xs ys h g = rw (h, g) refl

check_pattern-valid : (c : Calls) (p : Pattern) → (check_pattern c p ≡ none) ↔ IsValidPattern c p
unfolding check_pattern compile_regex_strict
check_pattern-valid c p =
    (λ h. ground (arith, h, same_iff p.regex []), λ v. ground (arith, v, same_iff p.regex []))

check_patterns-cons :
    (c : Calls) (id : Str) (p : Pattern) (ps : List Pattern)
    → (check_patterns c id (p ∷ ps) ≡ [])
      ↔ ((check_pattern c p ≡ none) × (check_patterns c id ps ≡ []))
unfolding check_patterns
check_patterns-cons c id p ps = (λ h. ground (arith, h), λ v. ground (arith, v))

check_patterns-valid :
    (c : Calls) (id : Str) (ps : List Pattern)
    → (check_patterns c id ps ≡ []) ↔ AreValidPatterns c ps
unfolding check_patterns
check_patterns-valid c id [] = (λ h. tt, λ v. refl)
check_patterns-valid c id (p ∷ ps) =
    let head = check_pattern-valid c p in
    let rest = check_patterns-valid c id ps in
    let step = check_patterns-cons c id p ps in
    (λ h. let (a, b) = step.0 h in (head.0 a, rest.0 b), λ v. step.1 (head.1 v.0, rest.1 v.1))

check_timeout-valid :
    (c : Calls) (id timeout : Str)
    → (check_timeout c id timeout ≡ []) ↔ ((timeout ≡ []) ⊎ (c.parse_duration timeout ≡ none))
unfolding check_timeout
check_timeout-valid c id timeout =
    (λ h. ground (arith, h, same_iff timeout []), λ v. ground (arith, v, same_iff timeout []))

check_semantic-valid : (id : Str) (s : Option Semantic) → (check_semantic id s ≡ []) ↔ HasModel s
unfolding check_semantic
check_semantic-valid id none = (λ h. ground (arith, h), λ v. absurd v)
check_semantic-valid id (some s) = (
  λ h. ground (arith, h, same_iff (trim_space s.model) []),
  λ v. ground (arith, v, same_iff (trim_space s.model) []),
)

same_int-eq : (a b : ℤ) → same_int a b ≡ true → a ≡ b
same_int-eq (pos m) (pos n) h = ap pos (ground (arith, h))
same_int-eq (pos m) (negsuc n) h = ground (arith, h)
same_int-eq (negsuc m) (pos n) h = ground (arith, h)
same_int-eq (negsuc m) (negsuc n) h = ap negsuc (ground (arith, h))

-- The errors of a rule of level 2.
abbrev level_two : Calls → Rule → List PackError
level_two c r =
    need_patterns r.id r.patterns
    ++ check_patterns c r.id r.patterns
    ++ check_timeout c r.id r.timeout

-- A level that is not 1, 2 or 3.
abbrev IsOtherLevel : ℤ → Type 0
IsOtherLevel l =
    (same_int l (pos 1) ≡ false)
    × (same_int l (pos 2) ≡ false)
    × (same_int l (pos 3) ≡ false)
    × ((ltb_int l (pos 1) || ltb_int (pos 3) l) ≡ true)

level_cases : (l : ℤ) → (l ≡ pos 1) ⊎ (l ≡ pos 2) ⊎ (l ≡ pos 3) ⊎ IsOtherLevel l
level_cases (negsuc n) = inr (inr (inr (ground arith)))
level_cases (pos zero) = inr (inr (inr (refl, refl, refl, refl)))
level_cases (pos (suc zero)) = inl refl
level_cases (pos (suc (suc zero))) = inr (inl refl)
level_cases (pos (suc (suc (suc zero)))) = inr (inr (inl refl))
level_cases (pos (suc (suc (suc (suc n))))) = inr (inr (inr (ground arith)))

module _ (c : Calls) (r : Rule) where
  check_one : r.level ≡ pos 1 → (check_rule c r ≡ []) ↔ (r.keywords ≢ [])
  unfolding check_rule
  check_one e = (λ h. ground (arith, e, h), λ v. ground (arith, e, v))

  check_two : r.level ≡ pos 2 → check_rule c r ≡ level_two c r
  unfolding check_rule
  check_two e = ground (arith, e)

  check_three : r.level ≡ pos 3 → check_rule c r ≡ check_semantic r.id r.semantic
  unfolding check_rule
  check_three e = ground (arith, e)

  check_other : IsOtherLevel r.level → check_rule c r ≢ []
  unfolding check_rule
  check_other (a, b, d, e) h = ground (arith, a, b, d, e, h)

  need_patterns-valid : (need_patterns r.id r.patterns ≡ []) ↔ (r.patterns ≢ [])
  unfolding need_patterns
  need_patterns-valid = (λ h. ground (arith, h), λ v. ground (arith, v))

  level_two-valid : (level_two c r ≡ []) ↔ (
      (r.patterns ≢ [])
      × AreValidPatterns c r.patterns
      × ((r.timeout ≡ []) ⊎ (c.parse_duration r.timeout ≡ none)))
  level_two-valid =
      let ps = check_patterns-valid c r.id r.patterns in
      let t = check_timeout-valid c r.id r.timeout in
      let needed = need_patterns r.id r.patterns in
      let checked = check_patterns c r.id r.patterns in
      (
        λ h.
            let (a, b) = append-none (needed ++ checked) (check_timeout c r.id r.timeout) h in
            let (d, e) = append-none needed checked a in (need_patterns-valid.0 d, ps.0 e, t.0 b),
        λ (a, d, e).
            none-append (needed ++ checked) (check_timeout c r.id r.timeout)
              (none-append needed checked (need_patterns-valid.1 a) (ps.1 d)) (t.1 e),
      )

  check_rule-valid : (check_rule c r ≡ []) ↔ IsValidRule c r
  check_rule-valid = (to, from)
    where
      to : check_rule c r ≡ [] → IsValidRule c r
      to h = elim (level_cases r.level) [
        | inl e ↦ inl (e, (check_one e).0 h)
        | inr (inl e) ↦
            let (a, b, d) = level_two-valid.0 (sym (check_two e) ∙ h) in inr (inl (e, a, b, d))
        | inr (inr (inl e)) ↦
            inr (inr (e, (check_semantic-valid r.id r.semantic).0 (sym (check_three e) ∙ h)))
        | inr (inr (inr e)) ↦ absurd (check_other e h)
      ]

      from : IsValidRule c r → check_rule c r ≡ []
      from (inl (e, v)) = (check_one e).1 v
      from (inr (inl (e, a, b, d))) = check_two e ∙ level_two-valid.1 (a, b, d)
      from (inr (inr (e, v))) = check_three e ∙ (check_semantic-valid r.id r.semantic).1 v

check_rules-valid : (c : Calls) (rs : List Rule) → (check_rules c rs ≡ []) ↔ AreValidRules c rs
unfolding check_rules
check_rules-valid c [] = (λ h. tt, λ v. refl)
check_rules-valid c (r ∷ rs) =
    let head = check_rule-valid c r in
    let rest = check_rules-valid c rs in
    (
      λ h. let (a, b) = append-none (check_rule c r) (check_rules c rs) h in (head.0 a, rest.0 b),
      λ (a, b). none-append (check_rule c r) (check_rules c rs) (head.1 a) (rest.1 b),
    )

-- ValidatePack finds no error exactly in the packs that pass the schema, whose rules have ids that
-- are not empty and occur once, and where each rule is valid at its level: keywords at level 1; at
-- level 2 patterns, each of at most 1000 bytes, with known flags, compiling and within the limits,
-- and a timeout that is empty or a duration; at level 3 a model that is not blank.
pub validate_pack_iff :
    (c : Calls) (p : RulePack)
    → (validate_pack c p ≡ []) ↔ (
        (check_schema c p ≡ [])
        × HaveIds p.rules
        × Unique (ids_of p.rules)
        × AreValidRules c p.rules)
unfolding validate_pack
validate_pack_iff c p =
    let ids = check_ids-valid [] p.rules in
    let rules = check_rules-valid c p.rules in
    (
      λ h.
          let (a, b) =
            append-none (check_schema c p ++ check_ids [] p.rules) (check_rules c p.rules) h in
          let (d, e) = append-none (check_schema c p) (check_ids [] p.rules) a in
          (d, (ids.0 e).0, (ids.0 e).2, rules.0 b),
      λ (d, i, u, v).
          none-append (check_schema c p ++ check_ids [] p.rules) (check_rules c p.rules)
            (none-append (check_schema c p) (check_ids [] p.rules) d
              (ids.1 (i, nothing_seen p.rules, u)))
            (rules.1 v),
    )
