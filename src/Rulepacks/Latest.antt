-- ===== src/Rulepacks/Latest.antt =====
-- `GetLatestVersion` of internal/infrastructure/persistence/memory/rulepack_repository.go.
use promptshield_beta.Rulepacks.{latest_step, latest_loop, is_newer, Version}
use promptshield_beta.Base.Text.{Str, same, same_iff, same_refl}
use promptshield_beta.Base.Map.{lookup, Map, Distinct}
use promptshield_beta.Base.{
  Option, ◌≡◌, false, true, ◌⊎◌, some, arith, inl, ◌∷◌, Bool-cases, none, [], inr, subst, sym, ◌∙◌,
  ap,
}

step_mono :
    (pack_id : Str) (v : Version) (latest : Option Version) (w : Version)
    → is_newer w latest ≡ false
    → is_newer w (latest_step pack_id v latest) ≡ false
unfolding latest_step is_newer
step_mono pack_id v none w h = ground (arith, h)
step_mono pack_id v (some l) w h = ground (arith, h)

step-newest :
    (pack_id : Str) (v : Version) (latest : Option Version)
    → same v.rulepack_id pack_id ≡ true
    → is_newer v (latest_step pack_id v latest) ≡ false
unfolding latest_step is_newer
step-newest pack_id v none h = ground (arith, h)
step-newest pack_id v (some l) h = ground (arith, h)

step-origin :
    (pack_id : Str) (v : Version) (latest : Option Version)
    → (latest_step pack_id v latest ≡ latest)
      ⊎ ((latest_step pack_id v latest ≡ some v) × (same v.rulepack_id pack_id ≡ true))
unfolding latest_step
step-origin pack_id v latest = ground arith

-- A version that is not newer than the latest so far is not newer than the result.
latest_loop_mono :
    (pack_id : Str) (m : Map Version) (latest : Option Version) (w : Version)
    → is_newer w latest ≡ false
    → is_newer w (latest_loop pack_id m latest) ≡ false
unfolding latest_loop
latest_loop_mono pack_id [] latest w h = h
latest_loop_mono pack_id ((k, v) ∷ m) latest w h =
    latest_loop_mono pack_id m (latest_step pack_id v latest) w (step_mono pack_id v latest w h)

-- No version of the pack is newer than the result.
pub latest_loop-newest :
    (pack_id : Str) (m : Map Version) (latest : Option Version) (k : Str) (w : Version)
    → lookup k m ≡ some w
    → same w.rulepack_id pack_id ≡ true
    → is_newer w (latest_loop pack_id m latest) ≡ false
unfolding latest_loop lookup
latest_loop-newest pack_id [] latest k w h e = ground (arith, h)
latest_loop-newest pack_id ((j, v) ∷ m) latest k w h e = elim (Bool-cases (same j k)) [
  | inr ne ↦
      latest_loop-newest pack_id m (latest_step pack_id v latest) k w (ground (arith, ne, h)) e
  | inl eq ↦
      let w_eq : v ≡ w = ground (arith, eq, h) in
      latest_loop_mono pack_id m (latest_step pack_id v latest) w (
        subst (λ (x : Version). is_newer x (latest_step pack_id v latest) ≡ false) w_eq
          (step-newest pack_id v latest (ground (arith, w_eq, e))))
]

-- The result is the start value or a version of the pack.
pub latest_loop-origin :
    (pack_id : Str) (m : Map Version) (latest : Option Version) (w : Version)
    → Distinct m
    → latest_loop pack_id m latest ≡ some w
    → (latest ≡ some w) ⊎ ((k : Str) × (lookup k m ≡ some w) × (same w.rulepack_id pack_id ≡ true))
unfolding latest_loop lookup
latest_loop-origin pack_id [] latest w d h = inl h
latest_loop-origin pack_id ((j, v) ∷ m) latest w d h =
    elim (latest_loop-origin pack_id m (latest_step pack_id v latest) w d.1 h) [
      | inr (k, found, e) ↦ inr (k, ground (arith, found, d.0, same_iff j k), e)
      | inl last ↦ elim (step-origin pack_id v latest) [
        | inl old ↦ inl (sym old ∙ last)
        | inr (new, e) ↦
            let w_eq : v ≡ w = (ground (arith, new, last)) in
            inr (j, rw (same_refl j) (ap some w_eq), ground (arith, w_eq, e))
      ]
    ]
