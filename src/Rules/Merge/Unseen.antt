-- ===== src/Rules/Merge/Unseen.antt =====
-- internal/rules/merge.go: the packs that the walk over `extends` has not visited yet.
use promptshield_beta.Rules.Types.{RulePack}
use promptshield_beta.Rules.Merge.{has}
use promptshield_beta.Base.Map.{Map, lookup, is_some}
use promptshield_beta.Base.{
  List, ℕ, ◌≡◌, ◌≤◌, ◌∷◌, if◌then◌else◌, true, false, length, ◌<◌, ◌+◌, arith, [],
}
use promptshield_beta.Base.Text.{Str, same_iff}

-- How many entries of the map have a name that was not visited.
pub unseen : Map RulePack → List Str → ℕ
unseen [] vis = 0
unseen ((k, p) ∷ m) vis = (if has k vis then 0 else 1) + unseen m vis

pub unseen-grows :
    (m : Map RulePack) (vis vis' : List Str)
    → ((n : Str) → has n vis ≡ true → has n vis' ≡ true)
    → unseen m vis' ≤ unseen m vis
unfolding unseen
unseen-grows [] vis vis' h = omega arith
unseen-grows ((k, p) ∷ m) vis vis' h = ground (arith, unseen-grows m vis vis' h, h k)

pub unseen-mark :
    (m : Map RulePack) (n : Str) (vis : List Str)
    → has n vis ≡ false
    → is_some (lookup n m) ≡ true
    → unseen m (n ∷ vis) < unseen m vis
unfolding unseen lookup has
unseen-mark [] n vis h e = ground arith
unseen-mark ((k, p) ∷ m) n vis h e = ground (
  arith,
  unseen-mark m n vis h,
  unseen-grows m vis (n ∷ vis) (λ j q. unfold has in ground (arith, q)),
  same_iff k n,
  same_iff n k,
)

pub unseen-le-length : (m : Map RulePack) (vis : List Str) → unseen m vis ≤ length m
unfolding unseen
unseen-le-length [] vis = omega arith
unseen-le-length ((k, p) ∷ m) vis = ground (arith, unseen-le-length m vis)
