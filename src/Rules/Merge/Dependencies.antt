-- ===== src/Rules/Merge/Dependencies.antt =====
-- The walk of internal/rules/merge.go places a pack after the packs that it extends, unless packs
-- extend one another in a circle; the walk's fuel is enough for that.
use promptshield_beta.Rules.Types.{RulePack}
use promptshield_beta.Rules.Merge.{Walk, visit, has, visit_deps, visit_all, pack_order}
use promptshield_beta.Base.Map.{Map, lookup, is_some}
use promptshield_beta.Base.{
  List, ℕ, ◌≡◌, ◌≤◌, ◌∷◌, ◌||◌, true, false, length, some, ◌<◌, arith, ◌++◌, [], suc, ◌⊎◌, inl, inr,
  Bool-cases, ap, sym, zero, if-false, if-true, subst, Option-cases, ◌∙◌,
}
use promptshield_beta.Base.Text.{Str, same_iff, same_refl, same, eq_of_same}
use promptshield_beta.Rules.Merge.Order.{
  is_pack, Goes, visit_deps-Goes, deeper, visit-old, visit-pack, visit-Goes, visit-stray, has-snoc,
}
use mathlib.Core.Option.{some-injective}
use promptshield_beta.Rules.Merge.Unseen.{unseen, unseen-grows, unseen-le-length, unseen-mark}

module _ (by_name : Map RulePack) where
  -- `d` is a pack that the pack `n` extends.
  abbrev pub Extends : Str → Str → Type 0
  Extends n d =
      (p : RulePack) × (lookup n by_name ≡ some p)
      × (has d p.extends ≡ true)
      × (is_pack by_name d ≡ true)

  -- Each name's dependencies stand before it, or were seen.
  abbrev pub AfterDeps : List Str → List Str → Type 0
  AfterDeps seen [] = Unit
  AfterDeps seen (n ∷ ns) = ((d : Str) → Extends n d → has d seen ≡ true) × AfterDeps (n ∷ seen) ns

  AfterDeps-snoc :
      (n : Str) (seen ns : List Str)
      → AfterDeps seen ns
      → ((d : Str) → Extends n d → (has d ns || has d seen) ≡ true)
      → AfterDeps seen (ns ++ n ∷ [])
  AfterDeps-snoc n seen [] a h = (λ d e. unfold has in h d e, tt)
  AfterDeps-snoc n seen (m ∷ ns) a h =
      (a.0, AfterDeps-snoc n (m ∷ seen) ns a.1 (λ d e. moved d (h d e)))
    where
      moved :
          (d : Str) → (has d (m ∷ ns) || has d seen) ≡ true → (has d ns || has d (m ∷ seen)) ≡ true
      moved d k = unfold has in ground (arith, k)

  module _ (rank : Str → ℕ) (falls : (n d : Str) → Extends n d → rank d < rank n) where
    -- Every pack that is visited and not yet placed has at least this rank.
    Waiting : ℕ → Walk → Type 0
    Waiting r w =
        (m : Str)
        → is_pack by_name m ≡ true
        → has m w.visited ≡ true
        → has m w.order ≡ false
        → r ≤ rank m

    Waiting-Goes : (r : ℕ) {w w' : Walk} → Goes by_name w w' → Waiting r w → Waiting r w'
    unfolding Waiting
    Waiting-Goes r g h m p v o = let s = g.settles m p v o in h m p s.0 s.1

    -- What `visit` achieves with enough fuel.
    Achieves : ℕ → (Str → Walk → Walk) → Type 0
    Achieves fuel go =
        (d : Str) (w : Walk)
        → unseen by_name w.visited < fuel
        → is_pack by_name d ≡ true
        → Waiting (suc (rank d)) w
        → AfterDeps [] w.order
        → AfterDeps [] (go d w).order × (has d (go d w).order ≡ true)

    -- The names of the order come after their dependencies, and the listed packs are placed.
    Done : List Str → Walk → Type 0
    Done deps w =
        AfterDeps [] w.order
        × ((d : Str) → has d deps ≡ true → is_pack by_name d ≡ true → has d w.order ≡ true)

    -- The claim for a list of dependencies, from any state.
    DepsAchieve : ℕ → ℕ → (Str → Walk → Walk) → List Str → Type 0
    DepsAchieve fuel r go deps =
        (w : Walk)
        → ((d : Str) → has d deps ≡ true → is_pack by_name d ≡ true → rank d < r)
        → unseen by_name w.visited < fuel
        → Waiting r w
        → AfterDeps [] w.order
        → Done deps (visit_deps by_name go deps w)

    skips_dep :
        (fuel r : ℕ) (go : Str → Walk → Walk) (d : Str) (deps : List Str)
        → is_pack by_name d ≡ false
        → DepsAchieve fuel r go deps
        → DepsAchieve fuel r go (d ∷ deps)
    unfolding DepsAchieve Done has
    skips_dep fuel r go d deps e ih w low u wait after =
        let rest = ih w (λ j h p. low j (ground (arith, h)) p) u wait after in
        let eq : visit_deps by_name go deps w ≡ visit_deps by_name go (d ∷ deps) w =
          unfold visit_deps in ap (visit_deps by_name go deps) (sym (if-false _ _ e)) in
        subst (Done (d ∷ deps)) eq
          (rest.0, λ j h p. rest.1 j (ground (arith, same_iff d j, e, h, p)) p)

    walks_dep :
        (fuel r : ℕ) (go : Str → Walk → Walk) (d : Str) (deps : List Str)
        → Achieves fuel go
        → ((d : Str) (w : Walk) → Goes by_name w (go d w))
        → is_pack by_name d ≡ true
        → DepsAchieve fuel r go deps
        → DepsAchieve fuel r go (d ∷ deps)
    unfolding DepsAchieve Done Achieves has
    walks_dep fuel r go d deps a g e ih w low u wait after =
        let w' : Walk = go d w in
        let goes : Goes by_name w w' = g d w in
        let below : rank d < r = low d (ground (arith, same_refl d)) e in
        let first =
          a d w u e (unfold Waiting in λ m p v o. omega (arith, wait m p v o, below)) after in
        let fewer : unseen by_name w'.visited ≤ unseen by_name w.visited =
          unseen-grows by_name w.visited w'.visited goes.grows in
        let rest =
          ih w' (λ j h p. low j (ground (arith, h)) p) (omega arith) (Waiting-Goes r goes wait)
            first.0 in
        let placed : has d (visit_deps by_name go deps w').order ≡ true =
          (visit_deps-Goes by_name go g deps w').keeps d first.1 in
        let eq : visit_deps by_name go deps w' ≡ visit_deps by_name go (d ∷ deps) w =
          unfold visit_deps in ap (visit_deps by_name go deps) (sym (if-true _ _ e)) in
        subst (Done (d ∷ deps)) eq
          (rest.0, λ j h p. ground (arith, same_iff d j, h, p, placed, rest.1 j))

    visit_deps-Achieves :
        (fuel r : ℕ) (go : Str → Walk → Walk)
        → Achieves fuel go
        → ((d : Str) (w : Walk) → Goes by_name w (go d w))
        → (deps : List Str) → DepsAchieve fuel r go deps
    visit_deps-Achieves fuel r go a g [] =
        unfold DepsAchieve Done visit_deps has in
        λ w low u wait after. (after, λ d h p. absurd (cc (h)))
    visit_deps-Achieves fuel r go a g (d ∷ deps) =
        by_case (Bool-cases (is_pack by_name d)) (visit_deps-Achieves fuel r go a g deps)
      where
        by_case :
            (is_pack by_name d ≡ true) ⊎ (is_pack by_name d ≡ false)
            → DepsAchieve fuel r go deps
            → DepsAchieve fuel r go (d ∷ deps)
        by_case (inl e) ih = walks_dep fuel r go d deps a g e ih
        by_case (inr e) ih = skips_dep fuel r go d deps e ih

    known_placed :
        (n : Str) (w : Walk)
        → is_pack by_name n ≡ true
        → has n w.visited ≡ true
        → Waiting (suc (rank n)) w
        → has n w.order ≡ true
    unfolding Waiting
    known_placed n w p v wait = elim (Bool-cases (has n w.order)) [
      | inl o ↦ o
      | inr o ↦ absurd (omega (arith, wait n p v o))
    ]

    -- A pack that was just marked waits with those that waited before.
    Waiting-mark :
        (n : Str) (w : Walk)
        → Waiting (suc (rank n)) w
        → Waiting (rank n) (record w { visited = n ∷ w.visited })
    unfolding Waiting has
    Waiting-mark n w wait m p v o = elim (Bool-cases (same n m)) [
      | inl e ↦ rw (eq_of_same n m e) (omega arith)
      | inr e ↦ omega (arith, wait m p (ground (arith, e, v)) o)
    ]

    deeper-Done :
        (fuel : ℕ) (n : Str) (w : Walk) (p : RulePack)
        → Achieves fuel (visit fuel by_name)
        → has n w.visited ≡ false
        → lookup n by_name ≡ some p
        → unseen by_name w.visited < suc fuel
        → Waiting (suc (rank n)) w
        → AfterDeps [] w.order
        → Done p.extends (deeper by_name fuel n p w)
    deeper-Done fuel n w p ih new e u wait after =
        unfold deeper DepsAchieve in
        visit_deps-Achieves fuel (rank n) (visit fuel by_name) ih (visit-Goes by_name fuel)
          p.extends (record w { visited = n ∷ w.visited }) (λ d h k. falls n d (p, e, h, k))
          (omega (arith, unseen-mark by_name n w.visited new (ground (arith, e)), u))
          (Waiting-mark n w wait) after

    placed_last :
        (n : Str) (p : RulePack) (v : Walk)
        → lookup n by_name ≡ some p
        → Done p.extends v
        → AfterDeps [] (v.order ++ n ∷ []) × (has n (v.order ++ n ∷ []) ≡ true)
    unfolding Done
    placed_last n p v e done = (
      AfterDeps-snoc n [] v.order done.0 (λ d x. before_it d x),
      ground (arith, has-snoc n n v.order, same_refl n),
    )
      where
        before_it : (d : Str) → Extends n d → (has d v.order || has d []) ≡ true
        before_it d (q, f, h, k) = ground (
          arith,
          done.1 d
              (subst (λ (r : RulePack). has d r.extends ≡ true) (some-injective q p (sym f ∙ e)) h)
              k,
        )

    visit-Achieves_step :
        (fuel : ℕ)
        → Achieves fuel (visit fuel by_name)
        → Achieves (suc fuel) (visit (suc fuel) by_name)
    visit-Achieves_step fuel ih =
        unfold Achieves in
        λ n w u p wait after. elim (Bool-cases (has n w.visited)) [
          | inl old ↦ rw (visit-old by_name fuel n w old) (after, known_placed n w p old wait)
          | inr new ↦ elim (Option-cases (lookup n by_name)) [
            | inl e ↦ absurd (cc (p, ap is_some e))
            | inr (q, e) ↦ rw (visit-pack by_name fuel n w q new e) (
                placed_last n q (deeper by_name fuel n q w) e
                  (deeper-Done fuel n w q ih new e u wait after))
          ]
        ]

    -- Enough fuel places every pack after its dependencies.
    visit-Achieves : (fuel : ℕ) → Achieves fuel (visit fuel by_name)
    visit-Achieves zero = unfold Achieves in λ d w u. absurd (omega arith)
    visit-Achieves (suc fuel) = visit-Achieves_step fuel (visit-Achieves fuel)

    -- Between two calls from the outer loop every visited pack is placed.
    AllPlaced : Walk → Type 0
    AllPlaced w =
        (m : Str) → is_pack by_name m ≡ true → has m w.visited ≡ true → has m w.order ≡ true

    AllPlaced-Goes : {w w' : Walk} → Goes by_name w w' → AllPlaced w → AllPlaced w'
    unfolding AllPlaced
    AllPlaced-Goes {w} {w'} g all m p v = elim (Bool-cases (has m w'.order)) [
      | inl o ↦ o
      | inr o ↦ absurd (let s = g.settles m p v o in cc (all m p s.0, s.1))
    ]

    AllPlaced-Waiting : (r : ℕ) (w : Walk) → AllPlaced w → Waiting r w
    unfolding AllPlaced Waiting
    AllPlaced-Waiting r w all m p v o = absurd (cc (all m p v, o))

    visit-AfterDeps :
        (fuel : ℕ) (n : Str) (w : Walk)
        → length by_name < fuel
        → AllPlaced w
        → AfterDeps [] w.order
        → AfterDeps [] (visit fuel by_name n w).order
    unfolding Achieves
    visit-AfterDeps zero n w u all after = absurd (omega arith)
    visit-AfterDeps (suc fuel) n w u all after = elim (Bool-cases (is_pack by_name n)) [
      | inl p ↦
          (visit-Achieves (suc fuel) n w (omega (arith, unseen-le-length by_name w.visited)) p
            (AllPlaced-Waiting (suc (rank n)) w all) after).0
      | inr p ↦ elim (Bool-cases (has n w.visited)) [
        | inl old ↦ rw (visit-old by_name fuel n w old) after
        | inr new ↦ rw (visit-stray by_name fuel n w new (ground (arith, p))) after
      ]
    ]

    visit_all-AfterDeps :
        (fuel : ℕ) (ns : List Str) (w : Walk)
        → length by_name < fuel
        → AllPlaced w
        → AfterDeps [] w.order
        → AfterDeps [] (visit_all fuel by_name ns w).order
    unfolding visit_all
    visit_all-AfterDeps fuel [] w u all after = after
    visit_all-AfterDeps fuel (n ∷ ns) w u all after =
        visit_all-AfterDeps fuel ns (visit fuel by_name n w) u
          (AllPlaced-Goes (visit-Goes by_name fuel n w) all) (visit-AfterDeps fuel n w u all after)

    -- If packs do not extend one another in a circle, so that some rank falls along `extends`,
    -- then every pack stands in the order after all the packs that it extends.
    pub pack_order-AfterDeps : (ns : List Str) → AfterDeps [] (pack_order by_name ns)
    unfolding pack_order
    pack_order-AfterDeps ns =
        visit_all-AfterDeps (suc (length by_name)) ns (record { visited = []; order = [] })
          (omega arith) (unfold AllPlaced has in λ m p v. absurd (cc (v))) tt
