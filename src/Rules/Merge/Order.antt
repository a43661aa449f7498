-- ===== src/Rules/Merge/Order.antt =====
-- The depth-first walk of internal/rules/merge.go: every pack is placed exactly once.
use promptshield_beta.Rules.Types.{RulePack}
use promptshield_beta.Rules.Merge.{Walk, visit, has, visit_deps}
use promptshield_beta.Base.Text.{Str, same, same_iff, same_refl}
use promptshield_beta.Base.{
  List, ◌++◌, ◌∷◌, ◌≡◌, Bool, ◌∙◌, ◌||◌, [], false, true, arith, refl, ℕ, suc, none, some,
  Bool-cases, if-true, if-false, ◌⊎◌, inl, inr, Option-cases, zero,
}
use promptshield_beta.Base.Map.{Map, is_some, lookup}

pub has-append : (n : Str) (ms ns : List Str) → has n (ms ++ ns) ≡ (has n ms || has n ns)
unfolding has
has-append n [] ns = refl
has-append n (m ∷ ms) ns = ground (arith, has-append n ms ns)

pub has-snoc : (n m : Str) (ms : List Str) → has n (ms ++ m ∷ []) ≡ (has n ms || same m n)
unfolding has
has-snoc n m [] = ground arith
has-snoc n m (k ∷ ms) = ground (arith, has-snoc n m ms)

-- No name occurs twice.
abbrev pub Unique : List Str → Type 0
Unique [] = Unit
Unique (n ∷ ns) = (has n ns ≡ false) × Unique ns

pub Unique-snoc : (n : Str) (ns : List Str) → Unique ns → has n ns ≡ false → Unique (ns ++ n ∷ [])
unfolding has
Unique-snoc n [] u h = (refl, tt)
Unique-snoc n (m ∷ ns) u h = (
  ground (arith, has-snoc m n ns, same_iff m n, same_iff n m, u.0, h),
  Unique-snoc n ns u.1 (ground (arith, h)),
)

module _ (by_name : Map RulePack) where
  abbrev pub is_pack : Str → Bool
  is_pack n = is_some (lookup n by_name)

  -- What a stretch of the walk does: it only adds; a name that was visited when it began is
  -- placed by it no more; a pack that it leaves visited but not placed was so when it began.
  pub record Goes (w w' : Walk) : Type 0 where
    pub grows : (m : Str) → has m w.visited ≡ true → has m w'.visited ≡ true
    pub keeps : (m : Str) → has m w.order ≡ true → has m w'.order ≡ true
    pub frozen : (m : Str) → has m w.visited ≡ true → has m w'.order ≡ has m w.order
    pub settles :
        (m : Str)
        → is_pack m ≡ true
        → has m w'.visited ≡ true
        → has m w'.order ≡ false
        → (has m w.visited ≡ true) × (has m w.order ≡ false)

  -- What holds between any two steps of the walk.
  pub record IsSound (w : Walk) : Type 0 where
    pub unique : Unique w.order
    pub placed : (m : Str) → has m w.order ≡ true → has m w.visited ≡ true
    pub packs : (m : Str) → has m w.order ≡ true → is_pack m ≡ true

  pub Goes-refl : (w : Walk) → Goes w w
  Goes-refl w = record {
    grows = λ m h. h;
    keeps = λ m h. h;
    frozen = λ m h. refl;
    settles = λ m p h k. (h, k);
  }

  pub Goes-trans : {u v w : Walk} → Goes u v → Goes v w → Goes u w
  Goes-trans g h = record {
    grows = λ m k. h.grows m (g.grows m k);
    keeps = λ m k. h.keeps m (g.keeps m k);
    frozen = λ m k. h.frozen m (g.grows m k) ∙ g.frozen m k;
    settles = λ m p k l. let s = h.settles m p k l in g.settles m p s.0 s.1;
  }

  -- A name that is no pack is marked, and nothing else happens.
  marks : (n : Str) (w : Walk) → is_pack n ≡ false → Goes w (record w { visited = n ∷ w.visited })
  unfolding has
  marks n w e = record {
    grows = λ m h. ground (arith, h);
    keeps = λ m h. h;
    frozen = λ m h. refl;
    settles = λ m p h k. (ground (arith, same_iff n m, h, p, e), k);
  }

  -- A pack is marked, its dependencies are walked, and it is placed.
  places :
      (n : Str) (w w' : Walk)
      → has n w.visited ≡ false
      → Goes (record w { visited = n ∷ w.visited }) w'
      → Goes w (record w' { order = w'.order ++ n ∷ [] })
  unfolding has
  places n w w' new g = record {
    grows = λ m h. g.grows m (ground (arith, h));
    keeps = λ m h. ground (arith, has-snoc m n w'.order, g.keeps m h);
    frozen = λ m h.
        ground (arith, has-snoc m n w'.order, g.frozen m (ground (arith, h)), same_iff n m, new, h);
    settles = λ m p h k.
        let s = g.settles m p h (ground (arith, has-snoc m n w'.order, k)) in
        (ground (arith, has-snoc m n w'.order, k, s.0, same_iff n m), s.1);
  }

  -- The walk of a pack's dependencies, begun once the pack is marked.
  unfoldable pub deeper : ℕ → Str → RulePack → Walk → Walk
  deeper fuel n p w =
      visit_deps by_name (visit fuel by_name) p.extends (record w { visited = n ∷ w.visited })

  pub visit-old :
      (fuel : ℕ) (n : Str) (w : Walk) → has n w.visited ≡ true → visit (suc fuel) by_name n w ≡ w
  unfolding visit
  visit-old fuel n w h = if-true _ _ h

  pub visit-stray :
      (fuel : ℕ) (n : Str) (w : Walk)
      → has n w.visited ≡ false
      → lookup n by_name ≡ none
      → visit (suc fuel) by_name n w ≡ record w { visited = n ∷ w.visited }
  unfolding visit
  visit-stray fuel n w h e = if-false _ _ h ∙ ground (arith, e)

  pub visit-pack :
      (fuel : ℕ) (n : Str) (w : Walk) (p : RulePack)
      → has n w.visited ≡ false
      → lookup n by_name ≡ some p
      → visit (suc fuel) by_name n w
        ≡ (let w' = deeper fuel n p w in record w' { order = w'.order ++ n ∷ [] })
  unfolding visit deeper
  visit-pack fuel n w p h e = if-false _ _ h ∙ ground (arith, e)

  pub visit_deps-Goes :
      (go : Str → Walk → Walk)
      → ((d : Str) (w : Walk) → Goes w (go d w))
      → (deps : List Str) (w : Walk) → Goes w (visit_deps by_name go deps w)
  unfolding visit_deps
  visit_deps-Goes go h [] w = Goes-refl w
  visit_deps-Goes go h (d ∷ deps) w = elim (Bool-cases (is_pack d)) [
    | inl e ↦ rw e (Goes-trans (h d w) (visit_deps-Goes go h deps (go d w)))
    | inr e ↦ rw e (visit_deps-Goes go h deps w)
  ]

  pub visit-Goes : (fuel : ℕ) (n : Str) (w : Walk) → Goes w (visit fuel by_name n w)
  visit-Goes zero n w = unfold visit in Goes-refl w
  visit-Goes (suc fuel) n w =
      step (Bool-cases (has n w.visited)) (Option-cases (lookup n by_name)) (visit-Goes fuel)
    where
      step :
          (has n w.visited ≡ true) ⊎ (has n w.visited ≡ false)
          → (lookup n by_name ≡ none) ⊎ ((p : RulePack) × (lookup n by_name ≡ some p))
          → ((d : Str) (w : Walk) → Goes w (visit fuel by_name d w))
          → Goes w (visit (suc fuel) by_name n w)
      step (inl old) c h = rw (visit-old fuel n w old) (Goes-refl w)
      step (inr new) (inl e) h = rw (visit-stray fuel n w new e) (marks n w (ground (arith, e)))
      step (inr new) (inr (p, e)) h = rw (visit-pack fuel n w p new e) (
          places n w (deeper fuel n p w) new
            (unfold deeper in visit_deps-Goes (visit fuel by_name) h p.extends _))

  visit_deps-IsSound :
      (go : Str → Walk → Walk)
      → ((d : Str) (w : Walk) → IsSound w → IsSound (go d w))
      → (deps : List Str) (w : Walk) → IsSound w
      → IsSound (visit_deps by_name go deps w)
  unfolding visit_deps
  visit_deps-IsSound go h [] w s = s
  visit_deps-IsSound go h (d ∷ deps) w s = elim (Bool-cases (is_pack d)) [
    | inl e ↦ rw e (visit_deps-IsSound go h deps (go d w) (h d w s))
    | inr e ↦ rw e (visit_deps-IsSound go h deps w s)
  ]

  marks-IsSound : (n : Str) (w : Walk) → IsSound w → IsSound (record w { visited = n ∷ w.visited })
  unfolding has
  marks-IsSound n w s = record {
    unique = s.unique;
    placed = λ m h. ground (arith, s.placed m h);
    packs = s.packs;
  }

  -- The walk below a pack that was just marked does not place it, so placing it is sound.
  places-IsSound :
      (n : Str) (w w' : Walk)
      → is_pack n ≡ true
      → has n w.visited ≡ false
      → IsSound w
      → Goes (record w { visited = n ∷ w.visited }) w'
      → IsSound w'
      → IsSound (record w' { order = w'.order ++ n ∷ [] })
  places-IsSound n w w' p new s g s' = record {
    unique = Unique-snoc n w'.order s'.unique (g.frozen n marked ∙ absent);
    placed = λ m h.
        ground (arith, has-snoc m n w'.order, s'.placed m, same_iff n m, g.grows n marked, h);
    packs = λ m h. ground (arith, has-snoc m n w'.order, s'.packs m, same_iff n m, p, h);
  }
    where
      marked : has n (n ∷ w.visited) ≡ true
      marked = unfold has in ground (arith, same_refl n)

      absent : has n w.order ≡ false
      absent = ground (arith, s.placed n, new)

  pub visit-IsSound : (fuel : ℕ) (n : Str) (w : Walk) → IsSound w → IsSound (visit fuel by_name n w)
  visit-IsSound zero n w s = unfold visit in s
  visit-IsSound (suc fuel) n w s =
      step (Bool-cases (has n w.visited)) (Option-cases (lookup n by_name)) (visit-IsSound fuel)
    where
      step :
          (has n w.visited ≡ true) ⊎ (has n w.visited ≡ false)
          → (lookup n by_name ≡ none) ⊎ ((p : RulePack) × (lookup n by_name ≡ some p))
          → ((d : Str) (w : Walk) → IsSound w → IsSound (visit fuel by_name d w))
          → IsSound (visit (suc fuel) by_name n w)
      step (inl old) c h = rw (visit-old fuel n w old) s
      step (inr new) (inl e) h = rw (visit-stray fuel n w new e) (marks-IsSound n w s)
      step (inr new) (inr (p, e)) h = rw (visit-pack fuel n w p new e) (
          places-IsSound n w (deeper fuel n p w) (ground (arith, e)) new s
            (unfold deeper in visit_deps-Goes (visit fuel by_name) (visit-Goes fuel) p.extends _)
            (unfold deeper in
              visit_deps-IsSound (visit fuel by_name) h p.extends _ (marks-IsSound n w s)))

  pub deeper-Goes :
      (fuel : ℕ) (n : Str) (p : RulePack) (w : Walk)
      → Goes (record w { visited = n ∷ w.visited }) (deeper fuel n p w)
  unfolding deeper
  deeper-Goes fuel n p w = visit_deps-Goes (visit fuel by_name) (visit-Goes fuel) p.extends _

  pub visit-marked :
      (fuel : ℕ) (n : Str) (w : Walk) → has n (visit (suc fuel) by_name n w).visited ≡ true
  visit-marked fuel n w = elim (Bool-cases (has n w.visited)) [
    | inl old ↦ (visit-Goes (suc fuel) n w).grows n old
    | inr new ↦ elim (Option-cases (lookup n by_name)) [
      | inl e ↦ rw (visit-stray fuel n w new e) (self w.visited)
      | inr (p, e) ↦
          rw (visit-pack fuel n w p new e) ((deeper-Goes fuel n p w).grows n (self w.visited))
    ]
  ]
    where
      self : (ns : List Str) → has n (n ∷ ns) ≡ true
      self ns = unfold has in ground (arith, same_refl n)
