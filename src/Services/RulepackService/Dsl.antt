-- ===== src/Services/RulepackService/Dsl.antt =====
-- internal/application/services/rulepacks.go: ValidateDSL and ParseDSL, without the count of failures.
use promptshield_beta.Rules.Validate
use promptshield_beta.Rules.Validate.{PackError, validate_pack}
use promptshield_beta.Base.Int.{sub_ℕ, pos_part, ltb_int, ℤ, pos}
use promptshield_beta.Base.{
  ◌%◌, ◌*◌, ℕ, ◌⊎◌, ◌≡◌, inl, ◌↔◌, inr, arith, List-cases, refl, ap, subst,
}
use promptshield_beta.Rules.Complexity.{env_limit}
use promptshield_beta.Base.{List, [], ◌∷◌, ◌++◌, length, map, ltb, if◌then◌else◌, Bool, true, false}
use promptshield_beta.Base.Text.{Str, bytes}
use promptshield_beta.Rules.Types.{RulePack}

pub data DslError : Type 0 where
  too_large : ℤ → DslError
  invalid_format : Str → DslError
  pack_error : PackError → DslError
  too_many_rules : ℕ → ℤ → DslError

-- yaml.Unmarshal of the data, and what ValidatePack calls.
pub record DslCalls : Type 0 where
  pub unmarshal : Str → Str ⊎ RulePack
  pub pack : Validate.Calls

unfoldable pub wrap_int64 : ℕ → ℤ
wrap_int64 m =
    let n = m % 18_446_744_073_709_551_616 in
    if ltb n 9_223_372_036_854_775_808 then pos n else sub_ℕ n 18_446_744_073_709_551_616

unfoldable pub max_kb : DslCalls → ℤ
unfolding env_limit
max_kb c = env_limit c.pack.complexity.getenv (bytes "PS_MAX_RULEPACK_KB") (pos 1024)

unfoldable pub max_rules : DslCalls → ℤ
unfolding env_limit
max_rules c = env_limit c.pack.complexity.getenv (bytes "PS_MAX_RULES") (pos 1000)

-- maxKB*1024, where the limit is positive.
unfoldable pub max_bytes : DslCalls → ℤ
unfolding wrap_int64 max_kb
max_bytes c = wrap_int64 (pos_part (max_kb c) * 1024)

-- What both functions find in a pack.
unfoldable pub pack_errors : DslCalls → RulePack → List DslError
unfolding validate_pack max_rules
pack_errors c p =
    map pack_error (validate_pack c.pack p)
    ++ (if ltb_int (max_rules c) (pos (length p.rules))
        then too_many_rules (length p.rules) (max_rules c) ∷ []
        else [])

unfoldable pub validate_dsl : DslCalls → Str → Bool × List DslError
unfolding max_bytes pack_errors
validate_dsl c data_bytes =
    if ltb_int (max_bytes c) (pos (length data_bytes))
    then (false, too_large (max_kb c) ∷ [])
    else elim (c.unmarshal data_bytes) [
      | inl e ↦ (false, invalid_format e ∷ [])
      | inr p ↦ elim (pack_errors c p) [ [] ↦ (true, []) | e ∷ es ↦ (false, e ∷ es) ]
    ]

-- The error is the first one.
unfoldable pub parse_dsl : DslCalls → Str → DslError ⊎ RulePack
unfolding max_bytes pack_errors
parse_dsl c data_bytes =
    if ltb_int (max_bytes c) (pos (length data_bytes))
    then inl (too_large (max_kb c))
    else elim (c.unmarshal data_bytes) [
      | inl e ↦ inl (invalid_format e)
      | inr p ↦ elim (pack_errors c p) [ [] ↦ inr p | e ∷ es ↦ inl e ]
    ]

map-append-none :
    {A B : Type 0} (f : A → B) (xs : List A) (b : Bool) (y : B)
    → (map f xs ++ (if b then y ∷ [] else []) ≡ []) ↔ ((xs ≡ []) × (b ≡ false))
map-append-none f [] b y = (λ h. ground (arith, h), λ v. ground (arith, v))
map-append-none f (x ∷ xs) b y = (λ h. ground (arith, h), λ v. ground (arith, v))

pack_errors-none :
    (c : DslCalls) (p : RulePack)
    → (pack_errors c p ≡ [])
      ↔ ((validate_pack c.pack p ≡ []) × (ltb_int (max_rules c) (pos (length p.rules)) ≡ false))
unfolding pack_errors
pack_errors-none c p = map-append-none pack_error (validate_pack c.pack p) _ _

-- The tests of the two functions, on any answers.
module _ (big : Bool) (x : DslError) (u : Str ⊎ RulePack) (errs : RulePack → List DslError) where
  abbrev parse_of : DslError ⊎ RulePack
  parse_of = if big then inl x else elim u [
    | inl e ↦ inl (invalid_format e)
    | inr q ↦ elim (errs q) [ [] ↦ inr q | e ∷ es ↦ inl e ]
  ]

  abbrev validation_of : Bool × List DslError
  validation_of = if big then (false, x ∷ []) else elim u [
    | inl e ↦ (false, invalid_format e ∷ [])
    | inr q ↦ elim (errs q) [ [] ↦ (true, []) | e ∷ es ↦ (false, e ∷ es) ]
  ]

parse_of-valid :
    (big : Bool) (x : DslError) (u : Str ⊎ RulePack) (errs : RulePack → List DslError)
    (p : RulePack)
    → parse_of big x u errs ≡ inr p
    → (u ≡ inr p) × (errs p ≡ []) × (big ≡ false)
parse_of-valid true x u errs p h = ground (arith, h)
parse_of-valid false x (inl e) errs p h = ground (arith, h)
parse_of-valid false x (inr q) errs p h = elim (List-cases (errs q)) [
  | inl z ↦
      let same_pack : q ≡ p = ground (arith, h, z) in
      (ap inr same_pack, subst (λ r. errs r ≡ []) same_pack z, refl)
  | inr (e, es, z) ↦ ground (arith, h, z)
]

valid-parse_of :
    (big : Bool) (x : DslError) (u : Str ⊎ RulePack) (errs : RulePack → List DslError)
    (p : RulePack)
    → (u ≡ inr p) × (errs p ≡ []) × (big ≡ false)
    → parse_of big x u errs ≡ inr p
valid-parse_of big x u errs p (a, b, d) = rw (d, a, b) refl

validation_of-parse_of :
    (big : Bool) (x : DslError) (u : Str ⊎ RulePack) (errs : RulePack → List DslError)
    → (validation_of big x u errs ≡ (true, [])) ↔ ((p : RulePack) × (parse_of big x u errs ≡ inr p))
validation_of-parse_of true x u errs = (λ h. ground (arith, h), λ (p, h). ground (arith, h))
validation_of-parse_of false x (inl e) errs = (λ h. ground (arith, h), λ (p, h). ground (arith, h))
validation_of-parse_of false x (inr q) errs = elim (List-cases (errs q)) [
  | inl z ↦ (λ h. (q, rw z refl), λ (p, h). rw z refl)
  | inr (e, es, z) ↦ (λ h. ground (arith, h, z), λ (p, h). ground (arith, h, z))
]

-- ParseDSL gives a pack exactly where the data is within the limit of its size and stands for that
-- pack, ValidatePack finds no error in it, and it has no more rules than the limit; and ValidateDSL
-- accepts exactly the data that ParseDSL gives a pack for.
pub parse_dsl_iff :
    (c : DslCalls) (s : Str)
    → ((p : RulePack)
        → (parse_dsl c s ≡ inr p) ↔ (
            (c.unmarshal s ≡ inr p)
            × (validate_pack c.pack p ≡ [])
            × (ltb_int (max_rules c) (pos (length p.rules)) ≡ false)
            × (ltb_int (max_bytes c) (pos (length s)) ≡ false)))
      × ((validate_dsl c s ≡ (true, [])) ↔ ((p : RulePack) × (parse_dsl c s ≡ inr p)))
unfolding parse_dsl validate_dsl
parse_dsl_iff c s =
    let big = ltb_int (max_bytes c) (pos (length s)) in
    let x = too_large (max_kb c) in
    let errs = pack_errors c in
    (
      λ p. (
        λ h.
            let (a, b, d) = parse_of-valid big x (c.unmarshal s) errs p h in
            let (e, f) = (pack_errors-none c p).0 b in (a, e, f, d),
        λ (a, e, f, d).
            valid-parse_of big x (c.unmarshal s) errs p (a, (pack_errors-none c p).1 (e, f), d),
      ),
      validation_of-parse_of big x (c.unmarshal s) errs,
    )
