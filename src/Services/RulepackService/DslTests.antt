-- ===== src/Services/RulepackService/DslTests.antt =====
-- Data that stands for a pack with two rules.
use promptshield_beta.Services.RulepackService.Dsl.{
  DslCalls, parse_dsl, validate_dsl, parse_dsl_iff, max_bytes, max_rules, max_kb,
}
use promptshield_beta.Rules.Validate.{validate_pack}
use promptshield_beta.Rules.Validate.Tests.{lenient, two_levels}
use promptshield_beta.Base.Text.{bytes}
use promptshield_beta.Base.{inr, ◌≡◌, ◌↔◌, [], refl, length, false, true}
use promptshield_beta.Rules.Types.{RulePack}
use promptshield_beta.Base.Decimal.{atoi}
use promptshield_beta.Base.Int.{pos, ltb_int}

abbrev dsl_calls : DslCalls
dsl_calls = record { unmarshal = λ text. inr two_levels; pack = lenient }

-- A limit of 2^54 KB wraps to 0 bytes.
abbrev huge : DslCalls
huge = record dsl_calls {
  pack = record lenient {
    complexity = record lenient.complexity { getenv = λ name. bytes "18014398509481984" };
  };
}

huge_limit : max_bytes huge ≡ pos 0
unfolding max_bytes max_kb atoi
huge_limit = refl

parse_dsl_iff_example :
    ((p : RulePack)
      → (parse_dsl dsl_calls (bytes "rules") ≡ inr p) ↔ (
          (dsl_calls.unmarshal (bytes "rules") ≡ inr p)
          × (validate_pack dsl_calls.pack p ≡ [])
          × (ltb_int (max_rules dsl_calls) (pos (length p.rules)) ≡ false)
          × (ltb_int (max_bytes dsl_calls) (pos (length (bytes "rules"))) ≡ false)))
    × ((validate_dsl dsl_calls (bytes "rules") ≡ (true, []))
        ↔ ((p : RulePack) × (parse_dsl dsl_calls (bytes "rules") ≡ inr p)))
parse_dsl_iff_example = parse_dsl_iff dsl_calls (bytes "rules")
