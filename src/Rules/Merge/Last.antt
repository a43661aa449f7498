-- ===== src/Rules/Merge/Last.antt =====
-- `MergePacks` of internal/rules/merge.go: the last definition of a rule wins, overrides apply in
-- pack order, and the result is sorted by id without the disabled rules.
use promptshield_beta.Rules.Types.{Rule, RulePack, Override}
use promptshield_beta.Rules.Merge.{
  put_rules, put_packs, override_packs, all_rules, override, override_in, override_map,
}
use promptshield_beta.Base.Text.{Str, same, same_iff}
use promptshield_beta.Base.{
  Option, List, ◌∷◌, ◌++◌, some, if◌then◌else◌, ◌≡◌, none, [], ◌∙◌, ap, sym, Option-cases, refl,
  inl, arith, inr,
}
use promptshield_beta.Base.Map.{Map, lookup, insert, lookup-insert}

-- The last rule of a list with the id, or a default.
unfoldable pub last_with : Str → List Rule → Option Rule → Option Rule
last_with id [] o = o
last_with id (r ∷ rs) o = last_with id rs (if same r.id id then some r else o)

lookup-put_rules :
    (id : Str) (rs : List Rule) (m : Map Rule)
    → lookup id (put_rules rs m) ≡ last_with id rs (lookup id m)
unfolding put_rules last_with
lookup-put_rules id [] m = refl
lookup-put_rules id (r ∷ rs) m =
    lookup-put_rules id rs (insert r.id r m) ∙ ap (last_with id rs) (lookup-insert r.id id r m)

last_with-append :
    (id : Str) (rs ss : List Rule) (o : Option Rule)
    → last_with id (rs ++ ss) o ≡ last_with id ss (last_with id rs o)
unfolding last_with
last_with-append id [] ss o = refl
last_with-append id (r ∷ rs) ss o = last_with-append id rs ss (if same r.id id then some r else o)

-- The packs' rules are merged by id, and a later definition replaces an earlier one.
pub lookup-put_packs :
    (id : Str) (ps : List RulePack) (m : Map Rule)
    → lookup id (put_packs ps m) ≡ last_with id (all_rules ps) (lookup id m)
unfolding put_packs all_rules last_with
lookup-put_packs id [] m = refl
lookup-put_packs id (p ∷ ps) m =
    lookup-put_packs id ps (put_rules p.rules m)
    ∙ ap (last_with id (all_rules ps)) (lookup-put_rules id p.rules m)
    ∙ sym (last_with-append id p.rules (all_rules ps) (lookup id m))

unfoldable pub override_some : Override → Option Rule → Option Rule
override_some ov none = none
override_some ov (some r) = some (override ov r)

-- All the overrides for an id, in order.
unfoldable pub override_all : Str → List Override → Option Rule → Option Rule
override_all id [] o = o
override_all id (ov ∷ ovs) o =
    override_all id ovs (if same ov.rule_id id then override_some ov o else o)

unfoldable pub all_overrides : List RulePack → List Override
all_overrides [] = []
all_overrides (p ∷ ps) = p.overrides ++ all_overrides ps

pub override_all-append :
    (id : Str) (ovs more : List Override) (o : Option Rule)
    → override_all id (ovs ++ more) o ≡ override_all id more (override_all id ovs o)
unfolding override_all
override_all-append id [] more o = refl
override_all-append id (ov ∷ ovs) more o =
    override_all-append id ovs more (if same ov.rule_id id then override_some ov o else o)

lookup-override_in :
    (id : Str) (ov : Override) (m : Map Rule)
    → lookup id (override_in ov m)
      ≡ (if same ov.rule_id id then override_some ov (lookup id m) else lookup id m)
lookup-override_in id ov m = elim (Option-cases (lookup ov.rule_id m)) [
  | inl e ↦ unfold override_in override_some in ground (arith, e, same_iff ov.rule_id id)
  | inr (r, e) ↦
      unfold override_in override_some in
      ground (arith, e, same_iff ov.rule_id id, lookup-insert ov.rule_id id (override ov r) m)
]

lookup-override_map :
    (id : Str) (ovs : List Override) (m : Map Rule)
    → lookup id (override_map ovs m) ≡ override_all id ovs (lookup id m)
lookup-override_map id [] m = unfold override_map override_all in refl
lookup-override_map id (ov ∷ ovs) m = first ∙ lookup-override_map id ovs (override_in ov m) ∙ second
  where
    first : lookup id (override_map (ov ∷ ovs) m) ≡ lookup id (override_map ovs (override_in ov m))
    first = unfold override_map in refl

    second :
        override_all id ovs (lookup id (override_in ov m))
        ≡ override_all id (ov ∷ ovs) (lookup id m)
    second = unfold override_all in ap (override_all id ovs) (lookup-override_in id ov m)

-- Overrides change the merged rules pack by pack, each in its order.
pub lookup-override_packs :
    (id : Str) (ps : List RulePack) (m : Map Rule)
    → lookup id (override_packs ps m) ≡ override_all id (all_overrides ps) (lookup id m)
unfolding override_packs all_overrides
lookup-override_packs id [] m = unfold override_all in refl
lookup-override_packs id (p ∷ ps) m =
    lookup-override_packs id ps (override_map p.overrides m)
    ∙ ap (override_all id (all_overrides ps)) (lookup-override_map id p.overrides m)
    ∙ sym (override_all-append id p.overrides (all_overrides ps) (lookup id m))

-- What the merge makes of an id: its last definition, with every override of the id.
unfoldable pub merged : List RulePack → Str → Option Rule
merged order id = override_all id (all_overrides order) (last_with id (all_rules order) none)

pub lookup-merged :
    (order : List RulePack) (id : Str)
    → lookup id (override_packs order (put_packs order [])) ≡ merged order id
unfolding merged
lookup-merged order id =
    lookup-override_packs id order (put_packs order [])
    ∙ ap (override_all id (all_overrides order))
        (lookup-put_packs id order [] ∙ ap (last_with id (all_rules order)) (unfold lookup in refl))
