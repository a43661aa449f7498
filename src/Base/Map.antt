-- ===== src/Base/Map.antt =====
-- Go's `map[string]V` as an association list: the order of the list is the order in which a
-- `range` over the map would meet the entries, which Go leaves open.
use mathlib.Core.Path.{◌≡◌, refl}
use mathlib.Core.Logic.{◌≢◌}
use mathlib.Core.Bool.{Bool, true, false}
use mathlib.Core.Option.{Option, none, some}
use mathlib.Core.List.{List, [], ◌∷◌}
use native.Mathlib.Omega.{arith}
use promptshield_beta.Base.Tests.{if◌then◌else◌}
use promptshield_beta.Base.Text.{Str, same, same_iff, same_refl}

abbrev pub Map {ℓ} : Type ℓ → Type ℓ
Map V = List (Str × V)

abbrev pub is_some {ℓ} : {A : Type ℓ} → Option A → Bool
is_some none = false
is_some (some a) = true

module _ {ℓ} {V : Type ℓ} where
  -- m[k], with the second result of Go's form as the option.
  unfoldable pub lookup : Str → Map V → Option V
  lookup k [] = none
  lookup k ((j, v) ∷ m) = if same j k then some v else lookup k m

  -- m[k] = v
  unfoldable pub insert : Str → V → Map V → Map V
  insert k v [] = (k, v) ∷ []
  insert k v ((j, w) ∷ m) = if same j k then (k, v) ∷ m else (j, w) ∷ insert k v m

  -- delete(m, k)
  unfoldable pub remove : Str → Map V → Map V
  remove k [] = []
  remove k ((j, v) ∷ m) = let rest = remove k m in if same j k then rest else (j, v) ∷ rest

  pub lookup-insert :
      (k j : Str) (v : V) (m : Map V)
      → lookup j (insert k v m) ≡ (if same k j then some v else lookup j m)
  unfolding lookup insert
  lookup-insert k j v [] = refl
  lookup-insert k j v ((i, w) ∷ m) =
      ground (arith, same_iff k j, same_iff i k, same_iff i j, lookup-insert k j v m)

  pub lookup-insert_self : (k : Str) (v : V) (m : Map V) → lookup k (insert k v m) ≡ some v
  lookup-insert_self k v m = rw (lookup-insert, same_refl)

  pub lookup-insert_ne :
      (k j : Str) (v : V) (m : Map V) → k ≢ j → lookup j (insert k v m) ≡ lookup j m
  lookup-insert_ne k j v m h = ground (arith, lookup-insert k j v m, same_iff k j)

  pub is_some-insert :
      (k j : Str) (v : V) (m : Map V)
      → is_some (lookup j m) ≡ true
      → is_some (lookup j (insert k v m)) ≡ true
  is_some-insert k j v m h = ground (arith, lookup-insert k j v m, h)

  pub lookup-remove :
      (k j : Str) (m : Map V) → lookup j (remove k m) ≡ (if same k j then none else lookup j m)
  unfolding lookup remove
  lookup-remove k j [] = ground arith
  lookup-remove k j ((i, w) ∷ m) =
      ground (arith, same_iff k j, same_iff i k, same_iff i j, lookup-remove k j m)

-- No key occurs twice, as in every Go map.
abbrev pub Distinct {ℓ} : {V : Type ℓ} → Map V → Type 0
Distinct [] = Unit
Distinct ((k, v) ∷ m) = (is_some (lookup k m) ≡ false) × Distinct m

module _ {ℓ} {V : Type ℓ} where
  pub insert-Distinct : (k : Str) (v : V) (m : Map V) → Distinct m → Distinct (insert k v m)
  unfolding insert
  insert-Distinct k v [] d = (unfold lookup in refl, tt)
  insert-Distinct k v ((j, w) ∷ m) d =
      ground (arith, insert-Distinct k v m d.1, same_iff j k, same_iff k j, lookup-insert k j v m)

  pub remove-Distinct : (k : Str) (m : Map V) → Distinct m → Distinct (remove k m)
  unfolding remove
  remove-Distinct k [] d = tt
  remove-Distinct k ((j, w) ∷ m) d =
      ground (arith, remove-Distinct k m d.1, same_iff j k, lookup-remove k j m)
