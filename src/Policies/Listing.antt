-- ===== src/Policies/Listing.antt =====
-- `List` of internal/infrastructure/persistence/memory/policy_repository.go, page by page.
use promptshield_beta.Base.{
  ℕ, Option, List, length, drop, ◌≤◌, [], ◌≡◌, ◌+◌, ◌<◌, ◌∷◌, suc, if◌then◌else◌, arith, take, sym,
  zero, ltb, Bool-cases, refl, ◌++◌, inl, ap₂, ltb→lt, ◌∙◌, take-append-drop, inr, ap, if-true,
  if-false,
}
use promptshield_beta.Policies.{paginate, list, Policy, collect, has_type}
use promptshield_beta.Base.Text.{Str}
use promptshield_beta.Base.Map.{Map}
use promptshield_beta.Base.Int.{pos}

-- A client that asks for pages of a size while the offset is below the total that it was told.
unfoldable pub read_pages : ℕ → ℕ → ℕ → Option Str → Map Policy → List Policy
read_pages zero offset limit t r = []
read_pages (suc fuel) offset limit t r =
    let page = list t (pos offset) (pos limit) r in
    let rest = read_pages fuel (offset + limit) limit t r in
    if ltb offset page.1 then page.0 ++ rest else []

drop-beyond : (n : ℕ) (xs : List Policy) → length xs ≤ n → drop n xs ≡ []
drop-beyond zero [] h = refl
drop-beyond zero (x ∷ xs) h = ground (arith, h)
drop-beyond (suc n) [] h = refl
drop-beyond (suc n) (x ∷ xs) h = drop-beyond n xs (omega (arith, h))

take-beyond : (n : ℕ) (xs : List Policy) → length xs ≤ n → take n xs ≡ xs
take-beyond zero [] h = refl
take-beyond zero (x ∷ xs) h = ground (arith, h)
take-beyond (suc n) [] h = refl
take-beyond (suc n) (x ∷ xs) h = ap (◌∷◌ x) (take-beyond n xs (omega (arith, h)))

drop-drop : (n k : ℕ) (xs : List Policy) → drop (n + k) xs ≡ drop k (drop n xs)
drop-drop zero k xs = ap (λ (m : ℕ). drop m xs) (omega arith)
drop-drop (suc n) k [] =
    drop-beyond (suc n + k) [] (omega arith) ∙ sym (drop-beyond k [] (omega arith))
drop-drop (suc n) k (x ∷ xs) = ap (λ (m : ℕ). drop m (x ∷ xs)) next ∙ drop-drop n k xs
  where
    next : suc n + k ≡ suc (n + k)
    next = omega arith

paginate_lem :
    (offset limit : ℕ) (xs : List Policy)
    → 1 ≤ limit
    → offset < length xs
    → paginate (pos offset) (pos limit) xs ≡ take limit (drop offset xs)
unfolding paginate
paginate_lem zero limit xs h1 h2 = ground (arith, h1, take-beyond limit xs)
paginate_lem (suc offset) limit xs h1 h2 =
    ground (arith, h1, h2, take-beyond limit (drop (suc offset) xs))

-- In a state that does not change, reading pages of a size of at least one, from an offset on,
-- while the offset is below the reported total yields each policy of the type from the offset on
-- once, in order; as many rounds as the total says are enough.
pub read_pages_lem :
    (fuel offset limit : ℕ) (t : Option Str) (r : Map Policy)
    → 1 ≤ limit
    → length (collect (has_type t) r) ≤ offset + fuel
    → read_pages fuel offset limit t r ≡ drop offset (collect (has_type t) r)
unfolding read_pages list
read_pages_lem zero offset limit t r h1 h2 =
    sym (drop-beyond offset (collect (has_type t) r) (omega (arith, h2)))
read_pages_lem (suc fuel) offset limit t r h1 h2 =
    elim (Bool-cases (ltb offset (length (collect (has_type t) r)))) [
      | inl e ↦
          if-true _ _ e
          ∙ (ap₂ ◌++◌ (paginate_lem offset limit (collect (has_type t) r) h1 (ltb→lt _ _ e)) (
                read_pages_lem fuel (offset + limit) limit t r h1 (omega (arith, h1, h2))
                ∙ drop-drop offset limit (collect (has_type t) r))
              ∙ take-append-drop limit (drop offset (collect (has_type t) r)))
      | inr e ↦
          if-false _ _ e ∙ (sym (drop-beyond offset (collect (has_type t) r) (ground (arith, e))))
    ]
