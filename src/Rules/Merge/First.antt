-- ===== src/Rules/Merge/First.antt =====
-- `MergePacksPriorityOrder` of internal/rules/merge.go: the first definition of a rule wins.
use promptshield_beta.Rules.Types.{Rule, RulePack, Override}
use promptshield_beta.Rules.Merge.{
  has, take_new, override_rule, override_list, drop_disabled, priority_before,
  merge_packs_priority_order, index_packs, all_rules, override, packs_of, pack_order, name_of,
}
use promptshield_beta.Rules.Merge.Result.{rule_with, id_of, enabled_only}
use promptshield_beta.Base.{
  List, ◌≡◌, map, if◌then◌else◌, true, ◌∷◌, some, none, sym, false, arith, Bool-cases, ap₂, ◌∙◌, [],
  ap, subst, inl, refl, inr,
}
use promptshield_beta.Rules.Merge.Last.{
  override_all, override_some, all_overrides, override_all-append,
}
use promptshield_beta.Base.Text.{Str, same, same_iff, same_refl, same-sym}
use promptshield_beta.Base.Sort.{sort_by}
use promptshield_beta.Rules.Merge.Order.{Unique}

rule_with-take_new :
    (id : Str) (rs : List Rule) (seen : List Str)
    → rule_with id (take_new rs seen) ≡ (if has id seen then none else rule_with id rs)
unfolding rule_with take_new has
rule_with-take_new id [] seen = ground arith
rule_with-take_new id (r ∷ rs) seen =
    ground (
      arith,
      rule_with-take_new id rs seen,
      rule_with-take_new id rs (r.id ∷ seen),
      same_iff r.id id,
    )

has-take_new :
    (id : Str) (rs : List Rule) (seen : List Str)
    → has id seen ≡ true
    → has id (map id_of (take_new rs seen)) ≡ false
unfolding take_new has id_of
has-take_new id [] seen h = refl
has-take_new id (r ∷ rs) seen h =
    ground (arith, has-take_new id rs seen h, has-take_new id rs (r.id ∷ seen), same_iff r.id id, h)

take_new-Unique : (rs : List Rule) (seen : List Str) → Unique (map id_of (take_new rs seen))
unfolding take_new id_of
take_new-Unique [] seen = tt
take_new-Unique (r ∷ rs) seen = elim (Bool-cases (has r.id seen)) [
  | inl e ↦ rw (e, take_new) (take_new-Unique rs seen)
  | inr e ↦
      rw (e, take_new)
        (
          has-take_new r.id rs (r.id ∷ seen) (unfold has in ground (arith, same_refl r.id)),
          take_new-Unique rs (r.id ∷ seen),
        )
]

id-override_rule : (ovs : List Override) (r : Rule) → (override_rule ovs r).id ≡ r.id
unfolding override_rule
id-override_rule [] r = refl
id-override_rule (ov ∷ ovs) r =
    id-override_rule ovs (if same r.id ov.rule_id then override ov r else r) ∙ ground arith

override_rule-all :
    (ovs : List Override) (r : Rule) → some (override_rule ovs r) ≡ override_all r.id ovs (some r)
unfolding override_rule override_all override_some
override_rule-all [] r = refl
override_rule-all (ov ∷ ovs) r = elim (Bool-cases (same r.id ov.rule_id)) [
  | inl e ↦
      rw (sym (same-sym r.id ov.rule_id), e)
        (unfold override in override_rule-all ovs (override ov r))
  | inr e ↦ rw (sym (same-sym r.id ov.rule_id), e) (override_rule-all ovs r)
]

ids-override :
    (ovs : List Override) (rs : List Rule) → map id_of (map (override_rule ovs) rs) ≡ map id_of rs
ids-override ovs [] = refl
ids-override ovs (r ∷ rs) = ap₂ ◌∷◌ (unfold id_of in id-override_rule ovs r) (ids-override ovs rs)

override_all-none : (id : Str) (ovs : List Override) → override_all id ovs none ≡ none
unfolding override_all override_some
override_all-none id [] = refl
override_all-none id (ov ∷ ovs) = ground (arith, override_all-none id ovs)

rule_with-override :
    (id : Str) (ovs : List Override) (rs : List Rule)
    → rule_with id (map (override_rule ovs) rs) ≡ override_all id ovs (rule_with id rs)
unfolding rule_with
rule_with-override id ovs [] = sym (override_all-none id ovs)
rule_with-override id ovs (r ∷ rs) = ground (
  arith,
  rule_with-override id ovs rs,
  id-override_rule ovs r,
  override_rule-all ovs r,
  same_iff r.id id,
)

rule_with-override_list :
    (id : Str) (ps : List RulePack) (rs : List Rule)
    → rule_with id (override_list ps rs) ≡ override_all id (all_overrides ps) (rule_with id rs)
unfolding override_list all_overrides
rule_with-override_list id [] rs = unfold override_all in refl
rule_with-override_list id (p ∷ ps) rs =
    rule_with-override_list id ps (map (override_rule p.overrides) rs)
    ∙ ap (override_all id (all_overrides ps)) (rule_with-override id p.overrides rs)
    ∙ sym (override_all-append id p.overrides (all_overrides ps) (rule_with id rs))

ids-override_list :
    (ps : List RulePack) (rs : List Rule) → map id_of (override_list ps rs) ≡ map id_of rs
unfolding override_list
ids-override_list [] rs = refl
ids-override_list (p ∷ ps) rs =
    ids-override_list ps (map (override_rule p.overrides) rs) ∙ ids-override p.overrides rs

rule_with-absent :
    (id : Str) (rs : List Rule) → has id (map id_of rs) ≡ false → rule_with id rs ≡ none
unfolding rule_with has id_of
rule_with-absent id [] h = refl
rule_with-absent id (r ∷ rs) h = ground (arith, rule_with-absent id rs, h)

rule_with-drop_disabled :
    (id : Str) (rs : List Rule)
    → Unique (map id_of rs)
    → rule_with id (drop_disabled rs) ≡ enabled_only (rule_with id rs)
unfolding rule_with drop_disabled enabled_only id_of
rule_with-drop_disabled id [] u = refl
rule_with-drop_disabled id (r ∷ rs) u =
    ground (arith, rule_with-drop_disabled id rs u.1, rule_with-absent id rs, same_iff r.id id, u.0)

drop_disabled-absent :
    (id : Str) (rs : List Rule)
    → has id (map id_of rs) ≡ false
    → has id (map id_of (drop_disabled rs)) ≡ false
unfolding drop_disabled has id_of
drop_disabled-absent id [] h = refl
drop_disabled-absent id (r ∷ rs) h = ground (arith, drop_disabled-absent id rs, h)

drop_disabled-Unique :
    (rs : List Rule) → Unique (map id_of rs) → Unique (map id_of (drop_disabled rs))
unfolding drop_disabled id_of
drop_disabled-Unique [] u = tt
drop_disabled-Unique (r ∷ rs) u =
    ground (arith, drop_disabled-Unique rs u.1, drop_disabled-absent r.id rs, u.0)

-- The packs in the order in which `MergePacksPriorityOrder` processes them.
unfoldable pub priority_order : List RulePack → List RulePack
priority_order packs =
    let sorted = sort_by priority_before packs in
    let by_name = index_packs sorted [] in
    packs_of by_name (pack_order by_name (map name_of sorted))

-- `MergePacksPriorityOrder` returns rules of distinct ids, exactly those that are not disabled:
-- under each id the first definition of the rule in the pack order, changed by all the overrides
-- for the id in the pack order.
pub merge_packs_priority_order_lem :
    (packs : List RulePack)
    → let order = priority_order packs in
      Unique (map id_of (merge_packs_priority_order packs))
      × ((id : Str)
          → rule_with id (merge_packs_priority_order packs)
            ≡ enabled_only (override_all id (all_overrides order) (rule_with id (all_rules order))))
merge_packs_priority_order_lem packs =
    (rw eq (drop_disabled-Unique changed distinct), λ id. rw eq (by_id id))
  where
    order : List RulePack
    order = priority_order packs

    changed : List Rule
    changed = override_list order (take_new (all_rules order) [])

    eq : merge_packs_priority_order packs ≡ drop_disabled changed
    eq = unfold merge_packs_priority_order priority_order in refl

    distinct : Unique (map id_of changed)
    distinct =
        subst Unique (sym (ids-override_list order (take_new (all_rules order) [])))
          (take_new-Unique (all_rules order) [])

    by_id :
        (id : Str)
        → rule_with id (drop_disabled changed)
          ≡ enabled_only (override_all id (all_overrides order) (rule_with id (all_rules order)))
    by_id id =
        rule_with-drop_disabled id changed distinct
        ∙ ap enabled_only (
            rule_with-override_list id order (take_new (all_rules order) [])
            ∙ ap (override_all id (all_overrides order)) (new_rules id))
      where
        new_rules :
            (id : Str)
            → rule_with id (take_new (all_rules order) []) ≡ rule_with id (all_rules order)
        new_rules id = rule_with-take_new id (all_rules order) [] ∙ unfold has in refl
