-- ===== src/Base/Sort.antt =====
-- Sorting: the order of byte strings that `sort.Strings` uses, and an insertion sort by a test
-- "not after". Equal elements keep their order, one of the results that `sort.Slice` may give.
use mathlib.Core.Path.{◌≡◌, refl}
use mathlib.Core.Bool.{Bool, true, false, ◌&&◌, ◌||◌}
use mathlib.Core.List.{List, [], ◌∷◌}
use native.Mathlib.Omega.{arith}
use promptshield_beta.Base.Tests.{ltb, ◌==◌, if◌then◌else◌}
use promptshield_beta.Base.Text.{Str}
use promptshield_beta.Base.{ap₂}

-- s < t on strings
unfoldable pub before : Str → Str → Bool
before [] [] = false
before [] (d ∷ t) = true
before (c ∷ s) [] = false
before (c ∷ s) (d ∷ t) = ltb c d || c == d && before s t

pub before_irrefl : (s : Str) → before s s ≡ false
unfolding before
before_irrefl [] = refl
before_irrefl (c ∷ s) = ground (arith, before_irrefl s)

pub before_trans : (s t u : Str) → before s t ≡ true → before t u ≡ true → before s u ≡ true
unfolding before
before_trans [] [] u h k = ground arith
before_trans [] (d ∷ t) [] h k = ground arith
before_trans [] (d ∷ t) (e ∷ u) h k = refl
before_trans (c ∷ s) [] u h k = ground arith
before_trans (c ∷ s) (d ∷ t) [] h k = ground arith
before_trans (c ∷ s) (d ∷ t) (e ∷ u) h k = ground (arith, before_trans s t u)

-- Two different strings are in one order or the other.
pub before-total : (s t : Str) → before s t ≡ false → before t s ≡ false → s ≡ t
unfolding before
before-total [] [] h k = refl
before-total [] (d ∷ t) h k = ground arith
before-total (c ∷ s) [] h k = ground arith
before-total (c ∷ s) (d ∷ t) h k =
    ap₂ ◌∷◌ (ground arith) (before-total s t (ground arith) (ground arith))

module _ {ℓ} {A : Type ℓ} where
  -- `less` is the test that Go's sort is given.
  unfoldable pub insert_by : (A → A → Bool) → A → List A → List A
  insert_by less x [] = x ∷ []
  insert_by less x (y ∷ ys) =
      let rest = insert_by less x ys in if less y x then y ∷ rest else x ∷ y ∷ ys

  unfoldable pub sort_by : (A → A → Bool) → List A → List A
  unfolding insert_by
  sort_by less [] = []
  sort_by less (x ∷ xs) = insert_by less x (sort_by less xs)

unfoldable pub sort_strings : List Str → List Str
sort_strings = sort_by before
