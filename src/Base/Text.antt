-- ===== src/Base/Text.antt =====
-- Go's strings as lists of bytes: equality, order, literals, and the functions of `strings` that
-- the program uses on them.
use Prim.Native.Char.{code}
use Prim.Native.String.{String}
use Prim.Native.Nat.{ℕ}
use mathlib.Core.Path.{◌≡◌, refl, ap₂}
use mathlib.Core.Logic.{◌↔◌}
use mathlib.Core.Bool.{Bool, true, false, ◌&&◌}
use mathlib.Core.List.{List, [], ◌∷◌}
use native.Mathlib.Omega.{arith}
use promptshield_beta.Base.Tests.{◌==◌}

abbrev pub Str : Type 0
Str = List ℕ

-- The bytes of a literal, which is ASCII.
abbrev pub bytes : String → Str
bytes String.[] = []
bytes (String.◌∷◌ c s) = code c ∷ bytes s

-- s == t
unfoldable pub same : Str → Str → Bool
same [] [] = true
same [] (d ∷ t) = false
same (c ∷ s) [] = false
same (c ∷ s) (d ∷ t) = c == d && same s t

pub same_refl : (s : Str) → same s s ≡ true
unfolding same
same_refl [] = refl
same_refl (c ∷ s) = ground (arith, same_refl s)

pub eq_of_same : (s t : Str) → same s t ≡ true → s ≡ t
unfolding same
eq_of_same [] [] h = refl
eq_of_same [] (d ∷ t) h = ground arith
eq_of_same (c ∷ s) [] h = ground arith
eq_of_same (c ∷ s) (d ∷ t) h = ap₂ ◌∷◌ (ground arith) (eq_of_same s t (ground arith))

-- The test is equality. Tactics are given this at each pair that is compared.
pub same_iff : (s t : Str) → (same s t ≡ true) ↔ (s ≡ t)
same_iff s t = (eq_of_same s t, λ e. rw e (same_refl t))

pub same-sym : (s t : Str) → same s t ≡ same t s
unfolding same
same-sym [] [] = refl
same-sym [] (d ∷ t) = refl
same-sym (c ∷ s) [] = refl
same-sym (c ∷ s) (d ∷ t) = ground (arith, same-sym s t)
