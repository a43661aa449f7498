-- ===== src/Rules/Validate/Ids.antt =====
-- internal/rules/validate.go: the loop over the ids finds no error exactly where they are distinct.
use promptshield_beta.Rules.Validate.{check_ids}
use promptshield_beta.Rules.Merge.Order.{Unique}
use promptshield_beta.Base.{List, [], ◌∷◌, ◌≢◌, ◌≡◌, ◌↔◌, false, refl, arith}
use promptshield_beta.Base.Text.{Str, same_iff, same-sym}
use promptshield_beta.Rules.Types.{Rule}
use promptshield_beta.Rules.Merge.{has}

abbrev pub ids_of : List Rule → List Str
ids_of [] = []
ids_of (r ∷ rs) = r.id ∷ ids_of rs

abbrev pub HaveIds : List Rule → Type 0
HaveIds [] = Unit
HaveIds (r ∷ rs) = (r.id ≢ []) × HaveIds rs

-- None of the ids was seen.
abbrev pub AreNew : List Str → List Rule → Type 0
AreNew seen [] = Unit
AreNew seen (r ∷ rs) = (has r.id seen ≡ false) × AreNew seen rs

AreNew-cons :
    (id : Str) (seen : List Str) (rs : List Rule)
    → AreNew (id ∷ seen) rs ↔ ((has id (ids_of rs) ≡ false) × AreNew seen rs)
unfolding has
AreNew-cons id seen [] = (λ h. (refl, tt), λ h. tt)
AreNew-cons id seen (r ∷ rs) =
    let rest = AreNew-cons id seen rs in
    (
      λ (h, v).
          let (a, b) = rest.0 v in (ground (arith, h, a, same-sym id r.id), (ground (arith, h), b)),
      λ (h, (g, v)). (ground (arith, h, g, same-sym id r.id), rest.1 (ground (arith, h), v)),
    )

-- The ids: there, not seen, and each once.
abbrev pub AreFresh : List Str → List Rule → Type 0
AreFresh seen rs = HaveIds rs × AreNew seen rs × Unique (ids_of rs)

check_ids-cons :
    (seen : List Str) (r : Rule) (rs : List Rule)
    → (check_ids seen (r ∷ rs) ≡ [])
      ↔ ((r.id ≢ []) × (has r.id seen ≡ false) × (check_ids (r.id ∷ seen) rs ≡ []))
unfolding check_ids
check_ids-cons seen r rs =
    (λ h. ground (arith, h, same_iff r.id []), λ v. ground (arith, v, same_iff r.id []))

pub check_ids-valid :
    (seen : List Str) (rs : List Rule) → (check_ids seen rs ≡ []) ↔ AreFresh seen rs
unfolding check_ids
check_ids-valid seen [] = (λ h. (tt, tt, tt), λ v. refl)
check_ids-valid seen (r ∷ rs) =
    let step = check_ids-cons seen r rs in
    let rest = check_ids-valid (r.id ∷ seen) rs in
    let grown = AreNew-cons r.id seen rs in
    (
      λ h.
          let (a, b, d) = step.0 h in
          let (ids, new, once) = rest.0 d in
          ((a, ids), (b, (grown.0 new).1), ((grown.0 new).0, once)),
      λ ((a, ids), (b, new), (f, once)). step.1 (a, b, rest.1 (ids, grown.1 (f, new), once)),
    )

pub nothing_seen : (rs : List Rule) → AreNew [] rs
unfolding has
nothing_seen [] = tt
nothing_seen (r ∷ rs) = (refl, nothing_seen rs)
