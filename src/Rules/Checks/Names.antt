-- ===== src/Rules/Checks/Names.antt =====
-- internal/rules/loader.go: checkUniqueNames lets through exactly the packs of distinct names.
use promptshield_beta.Rules.Checks.{check_unique_names, unique_loop, source_of}
use promptshield_beta.Rules.Merge.Order.{Unique}
use promptshield_beta.Base.{
  List, [], ◌∷◌, none, ◌≡◌, if◌then◌else◌, ◌↔◌, refl, false, Bool-cases, arith, inl, inr, true, sym,
  ◌∙◌,
}
use promptshield_beta.Rules.Types.{RulePack}
use promptshield_beta.Base.Map.{Map, lookup, insert, lookup-insert}
use promptshield_beta.Rules.Merge.{has}
use promptshield_beta.Base.Text.{Str, same, same-sym}

-- The names that are not empty.
abbrev names_of : List RulePack → List Str
names_of [] = []
names_of (p ∷ ps) =
    let rest = names_of ps in if same p.metadata.name [] then rest else p.metadata.name ∷ rest

abbrev AreUnseen : Map Str → List Str → Type 0
AreUnseen seen [] = Unit
AreUnseen seen (n ∷ ns) = (lookup n seen ≡ none) × AreUnseen seen ns

AreUnseen-insert :
    (n s : Str) (seen : Map Str) (ns : List Str)
    → AreUnseen (insert n s seen) ns ↔ ((has n ns ≡ false) × AreUnseen seen ns)
unfolding has
AreUnseen-insert n s seen [] = (λ h. (refl, tt), λ h. tt)
AreUnseen-insert n s seen (m ∷ ns) =
    let rest = AreUnseen-insert n s seen ns in
    let at = lookup-insert n m s seen in
    (
      λ (h, v).
          let (a, b) = rest.0 v in
          (ground (arith, h, at, a, same-sym n m), (ground (arith, h, at), b)),
      λ (h, (g, v)). (ground (arith, h, g, at, same-sym n m), rest.1 (ground (arith, h), v)),
    )

named_step :
    (p : RulePack) (ps : List RulePack) (seen : Map Str)
    → same p.metadata.name [] ≡ false
    → (unique_loop (p ∷ ps) seen ≡ none) ↔ (
        (lookup p.metadata.name seen ≡ none)
        × (unique_loop ps (insert p.metadata.name (source_of p) seen) ≡ none))
unfolding unique_loop
named_step p ps seen e = (λ h. ground (arith, e, h), λ v. ground (arith, e, v))

skipped_step :
    (p : RulePack) (ps : List RulePack) (seen : Map Str)
    → same p.metadata.name [] ≡ true
    → unique_loop (p ∷ ps) seen ≡ unique_loop ps seen
unfolding unique_loop
skipped_step p ps seen e = ground (arith, e)

unique_loop-none :
    (ps : List RulePack) (seen : Map Str)
    → (unique_loop ps seen ≡ none) ↔ (AreUnseen seen (names_of ps) × Unique (names_of ps))
unfolding unique_loop
unique_loop-none [] seen = (λ h. (tt, tt), λ v. refl)
unique_loop-none (p ∷ ps) seen = elim (Bool-cases (same p.metadata.name [])) [
  | inl e ↦
      let rest = unique_loop-none ps seen in
      let skip = skipped_step p ps seen e in rw e (λ h. rest.0 (sym skip ∙ h), λ v. skip ∙ rest.1 v)
  | inr e ↦
      let n = p.metadata.name in
      let step = named_step p ps seen e in
      let rest = unique_loop-none ps (insert n (source_of p) seen) in
      let grown = AreUnseen-insert n (source_of p) seen (names_of ps) in
      rw e (
        λ h.
            let (a, b) = step.0 h in
            let (unseen, once) = rest.0 b in ((a, (grown.0 unseen).1), ((grown.0 unseen).0, once)),
        λ ((a, unseen), (f, once)). step.1 (a, rest.1 (grown.1 (f, unseen), once)),
      )
]

nothing_seen : (ns : List Str) → AreUnseen [] ns
unfolding lookup
nothing_seen [] = tt
nothing_seen (n ∷ ns) = (refl, nothing_seen ns)

-- No duplicate is found exactly where no name that is not empty occurs twice.
check_unique_names_iff :
    (ps : List RulePack) → (check_unique_names ps ≡ none) ↔ Unique (names_of ps)
unfolding check_unique_names
check_unique_names_iff ps =
    let lem = unique_loop-none ps [] in
    (λ h. (lem.0 h).1, λ u. lem.1 (nothing_seen (names_of ps), u))
