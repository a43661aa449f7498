-- ===== src/Rules/Merge/Places.antt =====
-- The pack order of internal/rules/merge.go holds each pack exactly once.
use promptshield_beta.Rules.Types.{RulePack}
use promptshield_beta.Rules.Merge.{Walk, visit, has, pack_order, index_packs, name_of, visit_all}
use promptshield_beta.Base.Map.{Map, insert, lookup-insert, lookup}
use promptshield_beta.Base.Text.{Str, same, eq_of_same}
use promptshield_beta.Base.{
  ℕ, List, Bool, ◌≡◌, true, map, ◌∷◌, suc, [], ◌||◌, arith, length, ◌∙◌, ◌⊎◌, false, ap, refl, inl,
  sym, inr, Bool-cases,
}
use promptshield_beta.Rules.Merge.Order.{
  Unique, is_pack, Goes, IsSound, visit-IsSound, visit-marked, Goes-refl, Goes-trans, visit-Goes,
}
use promptshield_beta.Base.Sort.{insert_by, sort_by, sort_strings, before}

module _ (by_name : Map RulePack) (fuel : ℕ) where
  visit_all-Goes : (ns : List Str) (w : Walk) → Goes by_name w (visit_all fuel by_name ns w)
  unfolding visit_all
  visit_all-Goes [] w = Goes-refl by_name w
  visit_all-Goes (n ∷ ns) w =
      Goes-trans by_name (visit-Goes by_name fuel n w) (visit_all-Goes ns (visit fuel by_name n w))

  visit_all-IsSound :
      (ns : List Str) (w : Walk) → IsSound by_name w → IsSound by_name (visit_all fuel by_name ns w)
  unfolding visit_all
  visit_all-IsSound [] w s = s
  visit_all-IsSound (n ∷ ns) w s =
      visit_all-IsSound ns (visit fuel by_name n w) (visit-IsSound by_name fuel n w s)

visit_all-marked :
    (by_name : Map RulePack) (fuel : ℕ) (n : Str) (ns : List Str) (w : Walk)
    → has n ns ≡ true
    → has n (visit_all (suc fuel) by_name ns w).visited ≡ true
visit_all-marked by_name fuel n [] w h = unfold has in ground (arith, h)
visit_all-marked by_name fuel n (m ∷ ns) w h =
    step (Bool-cases (same m n)) (visit_all-marked by_name fuel n ns)
  where
    w' : Walk
    w' = visit (suc fuel) by_name m w

    step :
        (same m n ≡ true) ⊎ (same m n ≡ false)
        → ((w : Walk) → has n ns ≡ true → has n (visit_all (suc fuel) by_name ns w).visited ≡ true)
        → has n (visit_all (suc fuel) by_name (m ∷ ns) w).visited ≡ true
    step (inl e) ih =
        unfold visit_all in
        (visit_all-Goes by_name (suc fuel) ns w').grows n
          (ap (λ k. has k w'.visited) (sym (eq_of_same m n e)) ∙ visit-marked by_name fuel m w)
    step (inr e) ih = unfold visit_all in ih w' (unfold has in ground (arith, h, e))

-- Over any names, the order holds no name twice, only names of packs, and every given name that
-- is the name of a pack.
pack_order_lem :
    (by_name : Map RulePack) (ns : List Str)
    → let order = pack_order by_name ns in
      Unique order
      × ((n : Str) → has n order ≡ true → is_pack by_name n ≡ true)
      × ((n : Str) → has n ns ≡ true → is_pack by_name n ≡ true → has n order ≡ true)
unfolding pack_order
pack_order_lem by_name ns =
    (sound.unique, sound.packs, λ n h p. complete n h p (Bool-cases (has n last.order)))
  where
    start : Walk
    start = record { visited = []; order = [] }

    last : Walk
    last = visit_all (suc (length by_name)) by_name ns start

    nowhere : (m : Str) → has m [] ≡ false
    nowhere m = unfold has in refl

    sound : IsSound by_name last
    sound = visit_all-IsSound by_name (suc (length by_name)) ns start (record {
      unique = tt;
      placed = λ m h. absurd (cc (nowhere m, h));
      packs = λ m h. absurd (cc (nowhere m, h));
    })

    complete :
        (n : Str)
        → has n ns ≡ true
        → is_pack by_name n ≡ true
        → (has n last.order ≡ true) ⊎ (has n last.order ≡ false)
        → has n last.order ≡ true
    complete n h p (inl e) = e
    complete n h p (inr e) = absurd (
        cc (
          nowhere n,
          ((visit_all-Goes by_name (suc (length by_name)) ns start).settles n p
              (visit_all-marked by_name (length by_name) n ns start h) e).0,
        ))

pub is_pack-index_packs :
    (n : Str) (ps : List RulePack) (m : Map RulePack)
    → is_pack (index_packs ps m) n ≡ (has n (map name_of ps) || is_pack m n)
unfolding index_packs has name_of
is_pack-index_packs n [] m = refl
is_pack-index_packs n (p ∷ ps) m = ground (
  arith,
  is_pack-index_packs n ps (insert p.metadata.name p m),
  lookup-insert p.metadata.name n p m,
)

module _ {ℓ} {A : Type ℓ} (name : A → Str) (less : A → A → Bool) where
  has-insert_by :
      (n : Str) (x : A) (xs : List A)
      → has n (map name (insert_by less x xs)) ≡ (same (name x) n || has n (map name xs))
  unfolding insert_by has
  has-insert_by n x [] = refl
  has-insert_by n x (y ∷ ys) = ground (arith, has-insert_by n x ys)

  pub has-sort_by :
      (n : Str) (xs : List A) → has n (map name (sort_by less xs)) ≡ has n (map name xs)
  unfolding sort_by has
  has-sort_by n [] = refl
  has-sort_by n (x ∷ xs) =
      has-insert_by n x (sort_by less xs) ∙ ap (λ b. same (name x) n || b) (has-sort_by n xs)

has-map_id : (n : Str) (ns : List Str) → has n ns ≡ has n (map (λ s. s) ns)
unfolding has
has-map_id n [] = refl
has-map_id n (m ∷ ns) = ap (λ b. same m n || b) (has-map_id n ns)

pub has-sort_strings : (n : Str) (ns : List Str) → has n (sort_strings ns) ≡ has n ns
unfolding sort_strings
has-sort_strings n ns =
    has-map_id n (sort_by before ns) ∙ has-sort_by (λ s. s) before n ns ∙ sym (has-map_id n ns)

-- The order in which `MergePacks` merges the packs holds the name of every pack exactly once, and
-- nothing else, also where packs extend one another in a circle or extend a pack that is not there.
pub pack_order_complete :
    (packs : List RulePack)
    → let by_name = index_packs packs [] in
      let order = pack_order by_name (sort_strings (map name_of packs)) in
      Unique order × ((n : Str) → has n order ≡ has n (map name_of packs))
pack_order_complete packs = (facts.0, λ n. both n)
  where
    by_name : Map RulePack
    by_name = index_packs packs []

    names : List Str
    names = sort_strings (map name_of packs)

    facts :
        Unique (pack_order by_name names)
        × ((n : Str) → has n (pack_order by_name names) ≡ true → is_pack by_name n ≡ true)
        × ((n : Str)
            → has n names ≡ true
            → is_pack by_name n ≡ true
            → has n (pack_order by_name names) ≡ true)
    facts = pack_order_lem by_name names

    empty : (n : Str) → is_pack [] n ≡ false
    empty n = unfold lookup in refl

    both : (n : Str) → has n (pack_order by_name names) ≡ has n (map name_of packs)
    both n = ground (
      arith,
      facts.1 n,
      facts.2 n,
      has-sort_strings n (map name_of packs),
      is_pack-index_packs n packs [],
      empty n,
    )
