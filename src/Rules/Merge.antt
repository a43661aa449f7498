-- ===== src/Rules/Merge.antt =====
-- internal/rules/merge.go: `MergePacks` and `MergePacksPriorityOrder`.
pub mod Order
pub mod Places
pub mod Unseen
pub mod Dependencies
pub mod Last
pub mod Result
pub mod First
use promptshield_beta.Rules.Types.{Rule, RulePack, Override, Composition}
use promptshield_beta.Base.Int.{ℤ, same_int, pos, ltb_int}
use promptshield_beta.Base.{
  List, ℕ, if◌then◌else◌, Option, Bool, ◌∷◌, false, suc, [], some, ◌||◌, ◌++◌, length, not, map,
  none, zero, true,
}
use promptshield_beta.Base.Text.{Str, same}
use promptshield_beta.Base.Map.{Map, insert, is_some, lookup}
use promptshield_beta.Base.Sort.{sort_by, sort_strings, before}

unfoldable pub get_priority : RulePack → ℤ
get_priority pack = elim pack.composition [ some c ↦ c.priority | none ↦ pos 0 ]

-- `byName`: a later pack with the same name replaces an earlier one.
unfoldable pub index_packs : List RulePack → Map RulePack → Map RulePack
index_packs [] by_name = by_name
index_packs (p ∷ ps) by_name = index_packs ps (insert p.metadata.name p by_name)

unfoldable pub has : Str → List Str → Bool
has n [] = false
has n (m ∷ ms) = same m n || has n ms

-- The state of the depth-first walk: the names visited, and the order built so far.
pub record Walk : Type 0 where
  pub visited : List Str
  pub order : List Str

-- The loop over `p.Extends`; `go` is the recursive call of `visit`.
unfoldable pub visit_deps : Map RulePack → (Str → Walk → Walk) → List Str → Walk → Walk
visit_deps by_name go [] w = w
visit_deps by_name go (dep ∷ deps) w =
    visit_deps by_name go deps (if is_some (lookup dep by_name) then go dep w else w)

-- `visit`. The depth of the calls is bounded by the fuel: each call marks a name of a pack that
-- was not marked, so one more than the number of packs is enough (Merge/Order.antt).
unfoldable pub visit : ℕ → Map RulePack → Str → Walk → Walk
unfolding visit_deps has
visit zero by_name n w = w
visit (suc fuel) by_name n w =
    let deeper = λ (p : RulePack).
      let w' =
        visit_deps by_name (visit fuel by_name) p.extends (record w { visited = n ∷ w.visited }) in
      record w' { order = w'.order ++ n ∷ [] } in
    if has n w.visited
    then w
    else elim (lookup n by_name) [ none ↦ record w { visited = n ∷ w.visited } | some p ↦ deeper p ]

unfoldable pub visit_all : ℕ → Map RulePack → List Str → Walk → Walk
visit_all fuel by_name [] w = w
visit_all fuel by_name (n ∷ ns) w = visit_all fuel by_name ns (visit fuel by_name n w)

unfoldable pub pack_order : Map RulePack → List Str → List Str
pack_order by_name names =
    (visit_all (suc (length by_name)) by_name names (record { visited = []; order = [] })).order

-- The packs of an order: every name of the order is a key of `byName`.
unfoldable pub packs_of : Map RulePack → List Str → List RulePack
packs_of by_name [] = []
packs_of by_name (n ∷ ns) =
    let rest = packs_of by_name ns in elim (lookup n by_name) [ none ↦ rest | some p ↦ p ∷ rest ]

unfoldable pub name_of : RulePack → Str
name_of p = p.metadata.name

-- An override of one field set, where it is set.
unfoldable pub override : Override → Rule → Rule
override ov r = record r {
  severity = if same ov.severity [] then r.severity else ov.severity;
  enabled = elim ov.enabled [ none ↦ r.enabled | some b ↦ some b ];
}

-- `r.Enabled != nil && !*r.Enabled`
abbrev pub is_disabled : Option Bool → Bool
is_disabled none = false
is_disabled (some b) = not b

-- `byID[r.ID] = r` for the rules of a pack.
unfoldable pub put_rules : List Rule → Map Rule → Map Rule
put_rules [] by_id = by_id
put_rules (r ∷ rs) by_id = put_rules rs (insert r.id r by_id)

unfoldable pub put_packs : List RulePack → Map Rule → Map Rule
unfolding put_rules
put_packs [] by_id = by_id
put_packs (p ∷ ps) by_id = put_packs ps (put_rules p.rules by_id)

-- The body of the loop over a pack's overrides: an unknown id is skipped.
unfoldable pub override_in : Override → Map Rule → Map Rule
unfolding override
override_in ov by_id = elim (lookup ov.rule_id by_id) [
  | none ↦ by_id
  | some r ↦ insert ov.rule_id (override ov r) by_id
]

unfoldable pub override_map : List Override → Map Rule → Map Rule
unfolding override_in
override_map [] by_id = by_id
override_map (ov ∷ ovs) by_id = override_map ovs (override_in ov by_id)

unfoldable pub override_packs : List RulePack → Map Rule → Map Rule
unfolding override_map
override_packs [] by_id = by_id
override_packs (p ∷ ps) by_id = override_packs ps (override_map p.overrides by_id)

-- The ids of the map whose rule is not disabled.
unfoldable pub enabled_ids : Map Rule → List Str
enabled_ids [] = []
enabled_ids ((id, r) ∷ m) =
    let rest = enabled_ids m in if is_disabled r.enabled then rest else id ∷ rest

-- `out = append(out, byID[id])`
unfoldable pub rules_of : Map Rule → List Str → List Rule
rules_of by_id [] = []
rules_of by_id (id ∷ ids) =
    let rest = rules_of by_id ids in elim (lookup id by_id) [ none ↦ rest | some r ↦ r ∷ rest ]

unfoldable pub merge_packs : List RulePack → List Rule
merge_packs packs =
    let by_name = index_packs packs [] in
    let order = packs_of by_name (pack_order by_name (sort_strings (map name_of packs))) in
    let by_id = override_packs order (put_packs order []) in
    rules_of by_id (sort_strings (enabled_ids by_id))

-- Higher priority first, then by name.
unfoldable pub priority_before : RulePack → RulePack → Bool
priority_before p q =
    let a = get_priority p in
    let b = get_priority q in
    if same_int a b then before p.metadata.name q.metadata.name else ltb_int b a

-- First wins: the rules whose id was not seen, and the ids seen.
unfoldable pub take_new : List Rule → List Str → List Rule
unfolding has
take_new [] seen = []
take_new (r ∷ rs) seen = elim (has r.id seen) [
  | true ↦ take_new rs seen
  | false ↦ r ∷ take_new rs (r.id ∷ seen)
]

unfoldable pub all_rules : List RulePack → List Rule
all_rules [] = []
all_rules (p ∷ ps) = p.rules ++ all_rules ps

-- The loop over a pack's overrides at one rule.
unfoldable pub override_rule : List Override → Rule → Rule
unfolding override
override_rule [] r = r
override_rule (ov ∷ ovs) r = override_rule ovs (if same r.id ov.rule_id then override ov r else r)

unfoldable pub override_list : List RulePack → List Rule → List Rule
unfolding override_rule
override_list [] rs = rs
override_list (p ∷ ps) rs = override_list ps (map (override_rule p.overrides) rs)

unfoldable pub drop_disabled : List Rule → List Rule
drop_disabled [] = []
drop_disabled (r ∷ rs) =
    let rest = drop_disabled rs in if is_disabled r.enabled then rest else r ∷ rest

unfoldable pub merge_packs_priority_order : List RulePack → List Rule
merge_packs_priority_order packs =
    let sorted = sort_by priority_before packs in
    let by_name = index_packs sorted [] in
    let order = packs_of by_name (pack_order by_name (map name_of sorted)) in
    drop_disabled (override_list order (take_new (all_rules order) []))
