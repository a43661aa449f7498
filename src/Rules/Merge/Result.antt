-- ===== src/Rules/Merge/Result.antt =====
-- What `MergePacks` of internal/rules/merge.go returns, by id.
use promptshield_beta.Rules.Types.{Rule, RulePack, Override}
use promptshield_beta.Rules.Merge.{
  has, enabled_ids, rules_of, is_disabled, put_rules, put_packs, override_in, override_map,
  override_packs, index_packs, merge_packs, override, packs_of, pack_order, name_of,
}
use promptshield_beta.Base.Text.{Str, same, same_iff, same_refl}
use promptshield_beta.Base.{
  Option, List, none, ◌∷◌, ◌≡◌, some, if◌then◌else◌, true, false, [], arith, Option-cases, map,
  Bool-cases, inl, refl, inr, ◌∙◌, ap,
}
use promptshield_beta.Base.Map.{
  Map, lookup, Distinct, is_some, insert, insert-Distinct, lookup-insert,
}
use promptshield_beta.Base.Sort.{
  insert_by, sort_strings, before, sort_by, before_trans, before-total,
}
use promptshield_beta.Rules.Merge.Order.{Unique}
use promptshield_beta.Rules.Merge.Places.{has-sort_strings}
use promptshield_beta.Rules.Merge.Last.{merged, lookup-merged}

unfoldable pub id_of : Rule → Str
id_of r = r.id

-- The first rule of a list with the id.
unfoldable pub rule_with : Str → List Rule → Option Rule
rule_with id [] = none
rule_with id (r ∷ rs) = if same r.id id then some r else rule_with id rs

unfoldable pub enabled_only : Option Rule → Option Rule
enabled_only none = none
enabled_only (some r) = if is_disabled r.enabled then none else some r

-- Each id before the next.
abbrev pub AllAfter : Str → List Str → Type 0
AllAfter b [] = Unit
AllAfter b (n ∷ ns) = (before b n ≡ true) × AllAfter b ns

abbrev pub Ascending : List Str → Type 0
Ascending [] = Unit
Ascending (n ∷ ns) = AllAfter n ns × Ascending ns

-- Every rule is stored under its own id.
abbrev pub Keyed : Map Rule → Type 0
Keyed m = (id : Str) (r : Rule) → lookup id m ≡ some r → r.id ≡ id

AllAfter-weaken : (a b : Str) (ns : List Str) → before a b ≡ true → AllAfter b ns → AllAfter a ns
AllAfter-weaken a b [] h k = tt
AllAfter-weaken a b (n ∷ ns) h k = (before_trans a b n h k.0, AllAfter-weaken a b ns h k.1)

AllAfter-insert_by :
    (b n : Str) (ns : List Str)
    → before b n ≡ true
    → AllAfter b ns
    → AllAfter b (insert_by before n ns)
unfolding insert_by
AllAfter-insert_by b n [] h k = (h, tt)
AllAfter-insert_by b n (m ∷ ns) h k = ground (arith, AllAfter-insert_by b n ns h k.1, h, k)

Ascending-insert_by :
    (n : Str) (ns : List Str) → has n ns ≡ false → Ascending ns → Ascending (insert_by before n ns)
unfolding insert_by has
Ascending-insert_by n [] h a = (tt, tt)
Ascending-insert_by n (m ∷ ns) h a = elim (Bool-cases (before m n)) [
  | inl e ↦ rw e (AllAfter-insert_by m n ns e a.0, Ascending-insert_by n ns (ground (arith, h)) a.1)
  | inr e ↦ rw e (let first = first_before e in ((first, AllAfter-weaken n m ns first a.0), a))
]
  where
    first_before : before m n ≡ false → before n m ≡ true
    first_before e = ground (arith, before-total m n e, same_iff m n, h)

Ascending-sort_strings : (ns : List Str) → Unique ns → Ascending (sort_strings ns)
unfolding sort_strings sort_by
Ascending-sort_strings [] u = tt
Ascending-sort_strings (n ∷ ns) u =
    Ascending-insert_by n (sort_by before ns) (unfold sort_strings in has-sort_strings n ns ∙ u.0)
      (Ascending-sort_strings ns u.1)

has-enabled_ids :
    (id : Str) (m : Map Rule)
    → Distinct m
    → has id (enabled_ids m) ≡ is_some (enabled_only (lookup id m))
unfolding has enabled_ids enabled_only lookup
has-enabled_ids id [] d = refl
has-enabled_ids id ((k, r) ∷ m) d = ground (arith, has-enabled_ids id m d.1, same_iff k id, d.0)

enabled_ids-Unique : (m : Map Rule) → Distinct m → Unique (enabled_ids m)
unfolding enabled_ids
enabled_ids-Unique [] d = tt
enabled_ids-Unique ((k, r) ∷ m) d = elim (Bool-cases (is_disabled r.enabled)) [
  | inl e ↦ rw e (enabled_ids-Unique m d.1)
  | inr e ↦ rw e (has-enabled_ids k m d.1 ∙ absent, enabled_ids-Unique m d.1)
]
  where
    absent : is_some (enabled_only (lookup k m)) ≡ false
    absent = unfold enabled_only in ground (arith, d.0)

rule_with-rules_of :
    (id : Str) (m : Map Rule) (ids : List Str)
    → Keyed m
    → rule_with id (rules_of m ids) ≡ (if has id ids then lookup id m else none)
unfolding rule_with rules_of has
rule_with-rules_of id m [] k = refl
rule_with-rules_of id m (n ∷ ns) k = elim (Option-cases (lookup n m)) [
  | inl e ↦ ground (arith, e, rule_with-rules_of id m ns k, same_iff n id)
  | inr (r, e) ↦ ground (arith, e, k n r e, rule_with-rules_of id m ns k, same_iff n id)
]

ids-rules_of :
    (m : Map Rule) (ids : List Str)
    → Keyed m
    → ((id : Str) → has id ids ≡ true → is_some (lookup id m) ≡ true)
    → map id_of (rules_of m ids) ≡ ids
unfolding rules_of id_of has
ids-rules_of m [] k h = refl
ids-rules_of m (n ∷ ns) k h =
    let rest = ids-rules_of m ns k (λ id e. h id (ground (arith, e))) in
    elim (Option-cases (lookup n m)) [
      | inl e ↦ absurd (cc (h n (ground (arith, same_refl n)), ap is_some e))
      | inr (r, e) ↦ ground (arith, e, k n r e, rest)
    ]

-- The maps that the merge goes through have distinct keys, and each rule under its id.
abbrev IsIndex : Map Rule → Type 0
IsIndex m = Distinct m × Keyed m

insert-IsIndex :
    (id : Str) (r : Rule) (m : Map Rule) → r.id ≡ id → IsIndex m → IsIndex (insert id r m)
insert-IsIndex id r m e x = (
  insert-Distinct id r m x.0,
  λ j s h. ground (arith, lookup-insert id j r m, same_iff id j, x.1 j s, e, h),
)

put_rules-IsIndex : (rs : List Rule) (m : Map Rule) → IsIndex m → IsIndex (put_rules rs m)
unfolding put_rules
put_rules-IsIndex [] m x = x
put_rules-IsIndex (r ∷ rs) m x =
    put_rules-IsIndex rs (insert r.id r m) (insert-IsIndex r.id r m refl x)

put_packs-IsIndex : (ps : List RulePack) (m : Map Rule) → IsIndex m → IsIndex (put_packs ps m)
unfolding put_packs
put_packs-IsIndex [] m x = x
put_packs-IsIndex (p ∷ ps) m x =
    put_packs-IsIndex ps (put_rules p.rules m) (put_rules-IsIndex p.rules m x)

override_in-IsIndex : (ov : Override) (m : Map Rule) → IsIndex m → IsIndex (override_in ov m)
override_in-IsIndex ov m x = elim (Option-cases (lookup ov.rule_id m)) [
  | inl e ↦ let eq : override_in ov m ≡ m = unfold override_in in ground (arith, e) in rw eq x
  | inr (r, e) ↦
      let eq : override_in ov m ≡ insert ov.rule_id (override ov r) m =
        unfold override_in in ground (arith, e) in
      rw eq (insert-IsIndex ov.rule_id (override ov r) m (unfold override in x.1 ov.rule_id r e) x)
]

override_map-IsIndex :
    (ovs : List Override) (m : Map Rule) → IsIndex m → IsIndex (override_map ovs m)
override_map-IsIndex [] m x = unfold override_map in x
override_map-IsIndex (ov ∷ ovs) m x =
    go (override_map-IsIndex ovs (override_in ov m) (override_in-IsIndex ov m x))
  where
    go : IsIndex (override_map ovs (override_in ov m)) → IsIndex (override_map (ov ∷ ovs) m)
    go y = unfold override_map in y

override_packs-IsIndex :
    (ps : List RulePack) (m : Map Rule) → IsIndex m → IsIndex (override_packs ps m)
unfolding override_packs
override_packs-IsIndex [] m x = x
override_packs-IsIndex (p ∷ ps) m x =
    override_packs-IsIndex ps (override_map p.overrides m) (override_map-IsIndex p.overrides m x)

-- The packs in the order in which `MergePacks` processes them.
unfoldable pub merge_order : List RulePack → List RulePack
merge_order packs =
    let by_name = index_packs packs [] in
    packs_of by_name (pack_order by_name (sort_strings (map name_of packs)))

index_of : List RulePack → Map Rule
index_of packs = override_packs (merge_order packs) (put_packs (merge_order packs) [])

index_of-IsIndex : (packs : List RulePack) → IsIndex (index_of packs)
unfolding index_of
index_of-IsIndex packs =
    override_packs-IsIndex (merge_order packs) _
      (put_packs-IsIndex (merge_order packs) [] (tt, λ id r h. unfold lookup in cc (h)))

-- `MergePacks` returns, in ascending order of distinct ids, exactly the rules that are not
-- disabled: under each id the last definition of the rule in the pack order, changed by all the
-- overrides for the id in the pack order.
pub merge_packs_lem :
    (packs : List RulePack)
    → Ascending (map id_of (merge_packs packs))
      × ((id : Str)
          → rule_with id (merge_packs packs) ≡ enabled_only (merged (merge_order packs) id))
merge_packs_lem packs = (rw (eq, ids-rules_of m ids x.1 known) ascending, λ id. rw eq (by_id id))
  where
    m : Map Rule
    m = index_of packs

    x : IsIndex m
    x = index_of-IsIndex packs

    ids : List Str
    ids = sort_strings (enabled_ids m)

    eq : merge_packs packs ≡ rules_of m ids
    eq = unfold merge_packs index_of merge_order in refl

    listed : (id : Str) → has id ids ≡ is_some (enabled_only (lookup id m))
    listed id = has-sort_strings id (enabled_ids m) ∙ has-enabled_ids id m x.0

    known : (id : Str) → has id ids ≡ true → is_some (lookup id m) ≡ true
    known id h = unfold enabled_only in ground (arith, listed id, h)

    ascending : Ascending ids
    ascending = Ascending-sort_strings (enabled_ids m) (enabled_ids-Unique m x.0)

    found : (id : Str) → lookup id m ≡ merged (merge_order packs) id
    found id = unfold index_of in lookup-merged (merge_order packs) id

    by_id :
        (id : Str) → rule_with id (rules_of m ids) ≡ enabled_only (merged (merge_order packs) id)
    by_id id =
        rule_with-rules_of id m ids x.1 ∙ unfold enabled_only in ground (arith, listed id, found id)
