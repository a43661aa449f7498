-- ===== src/Services/PolicyScanner/Synced.antt =====
-- internal/application/services/policy_scanner_service.go: the rules in the scanner are those of the
-- active policies.
use promptshield_beta.Base.Map.{Map, lookup, insert, is_some, Distinct, remove}
use promptshield_beta.Policies.{collect, Policy, list_with_filter, matches_filter, PolicyError}
use promptshield_beta.Policies.{get_active}
use promptshield_beta.Services.PolicyScanner.{
  put_policies, policies_of, Yaml, Service, install, reload_active_policies, activate_policy,
  deactivate_policy, active_packs, reload_scanner,
}
use promptshield_beta.Base.Text.{Str, same-sym, same, bytes}
use promptshield_beta.Base.{
  Bool, ◌∷◌, ◌≡◌, ◌++◌, true, false, [], ap, arith, Bool-cases, sym, append-nil, refl, append_assoc,
  inl, inr, ◌∙◌, subst, List, ◌⊎◌, if-holds, ◌||◌,
}
use promptshield_beta.Scanner.Compile.{Calls}
use promptshield_beta.Scanner.Loader.{
  NewAho, load_rule_packs, merged_rules, Loaded, trim_rules, any_strategy,
}
use promptshield_beta.Scanner.Loader.Ids.{compiled_ids, ids, load_rule_packs-ids}
use promptshield_beta.Policies.{get}
use promptshield_beta.Rules.Merge.{
  merge_packs, merge_packs_priority_order, rules_of, drop_disabled, override_list, packs_of,
  enabled_ids, pack_order, override_packs, visit_all, put_packs, take_new, all_rules,
}
use promptshield_beta.Base.Int.{ℤ, is_pos}
use promptshield_beta.Rules.Types.{Rule}
use promptshield_beta.Base.Sort.{sort_strings, sort_by}

-- The repository in memory: each policy stands under its own id, once.
abbrev pub IsKeyed : Map Policy → Type 0
IsKeyed [] = Unit
IsKeyed ((k, p) ∷ m) = (k ≡ p.id) × IsKeyed m

-- GetActive filters nothing.
collect-all :
    (p : Policy → Bool) (r : Map Policy) → ((x : Policy) → p x ≡ true) → collect p r ≡ policies_of r
unfolding collect
collect-all p [] h = refl
collect-all p ((k, x) ∷ r) h = rw (h x) (ap (λ l. x ∷ l) (collect-all p r h))

pub get_active-all : (r : Map Policy) → get_active r ≡ policies_of r
unfolding get_active list_with_filter matches_filter
get_active-all r = collect-all _ r (λ x. refl)

-- A key that the rest of a map with distinct keys begins with is not in the first part.
lookup-append-none :
    (j : Str) (m r : Map Policy)
    → is_some (lookup j (m ++ r)) ≡ false
    → (is_some (lookup j m) ≡ false) × (is_some (lookup j r) ≡ false)
unfolding lookup
lookup-append-none j [] r h = (refl, h)
lookup-append-none j ((i, x) ∷ m) r h = ground (arith, h, lookup-append-none j m r)

Distinct-fresh :
    (k : Str) (p : Policy) (m r : Map Policy)
    → Distinct (m ++ (k, p) ∷ r)
    → is_some (lookup k m) ≡ false
unfolding lookup
Distinct-fresh k p [] r d = refl
Distinct-fresh k p ((j, x) ∷ m) r (h, d) =
    let (a, b) = lookup-append-none j m ((k, p) ∷ r) h in
    ground (arith, b, same-sym j k, Distinct-fresh k p m r d)

insert-fresh :
    (k : Str) (p : Policy) (m : Map Policy)
    → is_some (lookup k m) ≡ false
    → insert k p m ≡ m ++ (k, p) ∷ []
unfolding insert lookup
insert-fresh k p [] h = refl
insert-fresh k p ((j, x) ∷ m) h = elim (Bool-cases (same j k)) [
  | inl e ↦ absurd (ground (arith, h, e))
  | inr e ↦ rw e (ap (λ l. (j, x) ∷ l) (insert-fresh k p m (ground (arith, h, e))))
]

put_policies-append :
    (r m : Map Policy) → IsKeyed r → Distinct (m ++ r) → put_policies (policies_of r) m ≡ m ++ r
unfolding put_policies
put_policies-append [] m h d = sym (append-nil m)
put_policies-append ((k, p) ∷ r) m (e, h) d =
    let grown : insert p.id p m ≡ m ++ (k, p) ∷ [] =
      ap (λ (x : Str). insert x p m) (sym e) ∙ insert-fresh k p m (Distinct-fresh k p m r d) in
    ap (put_policies (policies_of r)) grown
    ∙ put_policies-append r (m ++ (k, p) ∷ []) h
        (subst Distinct (sym (append_assoc m ((k, p) ∷ []) r)) d)
    ∙ append_assoc m ((k, p) ∷ []) r

none_merged : merge_packs [] ≡ []
unfolding merge_packs rules_of sort_strings sort_by enabled_ids override_packs packs_of pack_order
    visit_all put_packs
none_merged = refl

none_by_priority : merge_packs_priority_order [] ≡ []
unfolding merge_packs_priority_order drop_disabled override_list packs_of pack_order visit_all
    sort_by take_new all_rules
none_by_priority = refl

none_trimmed : (n : ℤ) → trim_rules n [] ≡ []
unfolding trim_rules
none_trimmed n = if-holds (λ (rs : List Rule). rs ≡ []) (is_pos n) [] [] (λ e. refl) (λ e. refl)

module _ {C : Type 0} (y : Yaml) (k : Calls C) (new_aho : NewAho) where
  -- The compiled rules are those that the packs of the active policies merge to.
  abbrev pub IsSynced : Service C → Type 0
  IsSynced s =
      compiled_ids s.loaded.scanner.compiled
      ≡ ids (merged_rules k new_aho (active_packs y (policies_of s.active_policies)) s.loaded)

  install-IsSynced :
      (ps : List Policy) (active : Map Policy) (s : Service C)
      → ps ≡ policies_of active
      → IsSynced (install y k new_aho ps active s)
  unfolding install
  install-IsSynced ps active s e =
      let l = (load_rule_packs k new_aho (active_packs y ps) s.loaded).0 in
      load_rule_packs-ids k new_aho (active_packs y ps) s.loaded
      ∙ ap (λ (qs : List Policy). ids (merged_rules k new_aho (active_packs y qs) l)) e

  -- A reload from the repository in memory makes every policy that is stored active, whichever were
  -- active before: GetActive returns them all.
  pub reload_active_policies_lem :
      (repo : Map Policy) (s : Service C)
      → IsKeyed repo
      → Distinct repo
      → (reload_active_policies y k new_aho repo s).active_policies ≡ repo
  unfolding reload_active_policies
  reload_active_policies_lem repo s h d =
      ap (λ (ps : List Policy). put_policies ps []) (get_active-all repo)
      ∙ put_policies-append repo [] h d

  activate-IsSynced :
      (id : Str) (s : Service C) (x : PolicyError ⊎ Policy) (repo : Map Policy)
      → get id repo ≡ x
      → IsSynced s
      → IsSynced (activate_policy y k new_aho id repo s).1
  unfolding activate_policy reload_scanner
  activate-IsSynced id s (inl e) repo z i = rw (activate_policy, z) i
  activate-IsSynced id s (inr p) repo z i =
      let active = insert id p s.active_policies in
      rw (activate_policy, z) (install-IsSynced (policies_of active) active s refl)

  -- The calls of the service.
  pub data Step : Service C → Service C → Type 0 where
    reload :
        (repo : Map Policy) (s : Service C)
        → IsKeyed repo
        → Distinct repo
        → Step s (reload_active_policies y k new_aho repo s)
    activate :
        (id : Str) (repo : Map Policy) (s : Service C)
        → Step s (activate_policy y k new_aho id repo s).1
    deactivate : (id : Str) (s : Service C) → Step s (deactivate_policy y k new_aho id s).1

  -- The states that the calls lead to, from a scanner without rules.
  pub data Reach : Service C → Type 0 where
    start :
        (l : Loaded C)
        → l.scanner.compiled ≡ []
        → Reach (record { loaded = l; active_policies = [] })
    next : (s t : Service C) → Reach s → Step s t → Reach t

  step-IsSynced : (s t : Service C) → Step s t → IsSynced s → IsSynced t
  unfolding reload_active_policies deactivate_policy reload_scanner
  step-IsSynced s t (Step.reload repo s' h d) i =
      install-IsSynced (get_active repo) (put_policies (get_active repo) []) s'
        (get_active-all repo ∙ ap policies_of (sym (reload_active_policies_lem repo s' h d)))
  step-IsSynced s t (Step.activate id repo s') i = activate-IsSynced id s' (get id repo) repo refl i
  step-IsSynced s t (Step.deactivate id s') i =
      install-IsSynced (policies_of (remove id s'.active_policies)) (remove id s'.active_policies)
        s' refl

  -- No packs have no rules.
  no_rules : (l : Loaded C) → merged_rules k new_aho [] l ≡ []
  unfolding merged_rules
  no_rules l =
      ap (trim_rules l.max_pattern_length) (
        if-holds (λ (rs : List Rule). rs ≡ [])
          (same (k.to_lower l.composition_strategy) (bytes "priority_order")
            || any_strategy k.equal_fold (bytes "priority_order") [])
          (merge_packs_priority_order []) (merge_packs []) (λ e. none_by_priority)
          (λ e. none_merged))
      ∙ none_trimmed l.max_pattern_length

  -- In every state that the calls lead to, the rules that are compiled in the scanner are, by their
  -- identifiers and in order, those that the rule packs of the active policies merge to.
  pub Reach-IsSynced : (s : Service C) → Reach s → IsSynced s
  unfolding active_packs
  Reach-IsSynced s (Reach.start l e) = ap compiled_ids e ∙ sym (ap ids (no_rules l))
  Reach-IsSynced t (Reach.next s t' r st) = step-IsSynced s t st (Reach-IsSynced s r)
