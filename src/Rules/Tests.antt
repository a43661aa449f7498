-- ===== src/Rules/Tests.antt =====
-- Merges of a few packs, and the theorems at them.
use promptshield_beta.Base.Text.{Str, bytes, same, eq_of_same, same-sym}
use promptshield_beta.Base.{
  List, ℕ, [], map, ◌∷◌, if◌then◌else◌, none, some, false, ◌≡◌, ◌<◌, arith, Bool-cases, inl, ◌∙◌,
  if-true, true, subst, inr, if-false, refl,
}
use promptshield_beta.Base.Map.{Map, insert, lookup}
use promptshield_beta.Rules.Merge.{
  index_packs, pack_order, has, name_of, merge_packs, merge_packs_priority_order, all_rules,
}
use promptshield_beta.Rules.Merge.Order.{Unique}
use promptshield_beta.Rules.Merge.Dependencies.{AfterDeps, pack_order-AfterDeps, Extends}
use promptshield_beta.Rules.Merge.Result.{
  Ascending, id_of, rule_with, enabled_only, merge_order, merge_packs_lem,
}
use promptshield_beta.Rules.Types.{Rule, Override, RulePack}
use promptshield_beta.Base.Int.{pos}
use promptshield_beta.Base.Sort.{sort_strings}
use promptshield_beta.Rules.Merge.Places.{pack_order_complete}
use promptshield_beta.Rules.Merge.Last.{merged, override_all, all_overrides}
use promptshield_beta.Rules.Merge.First.{priority_order, merge_packs_priority_order_lem}

abbrev a : Str
a = bytes "a"

abbrev b : Str
b = bytes "b"

abbrev rule : Str → Rule
rule id = record {
  id = id;
  name = [];
  level = pos 1;
  severity = bytes "HIGH";
  category = [];
  enabled = none;
  verifier = [];
  keywords = [];
  patterns = [];
  semantic = none;
  fallback = none;
  logic = [];
  options = record { case_sensitive = false; whole_word = false };
  response = none;
  cache = none;
  when = none;
  unless = none;
  timeout = [];
}

abbrev pack : Str → List Str → List Override → RulePack
pack name extends overrides = record {
  api_version = [];
  kind = [];
  metadata = record {
    name = name;
    version = [];
    description = [];
    author = [];
    license = [];
    homepage = [];
    repository = [];
    tags = [];
  };
  rules = rule name ∷ rule (bytes "r") ∷ [];
  extends = extends;
  imports = [];
  composition = none;
  performance = none;
  overrides = overrides;
  context = [];
  source_path = [];
}

-- `a` extends `b` and disables its rule.
abbrev packs : List RulePack
packs =
    pack a (b ∷ []) (record { rule_id = b; severity = []; enabled = some false } ∷ [])
    ∷ pack b [] []
    ∷ []

abbrev by_name : Map RulePack
by_name = index_packs packs []

abbrev rank : Str → ℕ
rank n = if same n b then 0 else 1

distinct_names : same a b ≡ false
unfolding same
distinct_names = refl

-- Only `a` extends a pack, which is `b`.
extends-packs :
    (n : Str) (p : RulePack)
    → lookup n by_name ≡ some p
    → p.extends ≡ (if same a n then b ∷ [] else [])
unfolding index_packs insert lookup
extends-packs n p h = ground (arith, distinct_names, h)

falls : (n d : Str) → Extends by_name n d → rank d < rank n
unfolding has
falls n d (p, found, deps, known) = elim (Bool-cases (same a n)) [
  | inl e ↦
      let ds : p.extends ≡ b ∷ [] = extends-packs n p found ∙ if-true _ _ e in
      let to_b : has d (b ∷ []) ≡ true = subst (λ (xs : List Str). has d xs ≡ true) ds deps in
      subst (λ (z : Str). rank d < rank z) (eq_of_same a n e)
        (ground (arith, distinct_names, same-sym b d, to_b))
  | inr e ↦
      let ds : p.extends ≡ [] = extends-packs n p found ∙ if-false _ _ e in
      let none_left : has d [] ≡ true = subst (λ (xs : List Str). has d xs ≡ true) ds deps in
      ground (arith, none_left)
]

pack_order_complete_example :
    Unique (pack_order (index_packs packs []) (sort_strings (map name_of packs)))
    × ((n : Str)
        → has n (pack_order (index_packs packs []) (sort_strings (map name_of packs)))
          ≡ has n (map name_of packs))
pack_order_complete_example = pack_order_complete packs

pack_order-AfterDeps_example : AfterDeps by_name [] (pack_order by_name (a ∷ b ∷ []))
pack_order-AfterDeps_example = pack_order-AfterDeps by_name rank falls (a ∷ b ∷ [])

merge_packs_lem_example :
    Ascending (map id_of (merge_packs packs))
    × ((id : Str) → rule_with id (merge_packs packs) ≡ enabled_only (merged (merge_order packs) id))
merge_packs_lem_example = merge_packs_lem packs

merge_packs_priority_order_lem_example :
    Unique (map id_of (merge_packs_priority_order packs))
    × ((id : Str)
        → rule_with id (merge_packs_priority_order packs)
          ≡ enabled_only (
              override_all id
                (all_overrides (priority_order packs))
                (rule_with id (all_rules (priority_order packs)))))
merge_packs_priority_order_lem_example = merge_packs_priority_order_lem packs
