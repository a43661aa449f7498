-- ===== src/Scanner/Loader/Matchers.antt =====
-- internal/scanner/loader.go: the matcher of the keywords is only built for a pack with a MaxLength.
use promptshield_beta.Base.{
  List, ◌∷◌, Option, ◌≡◌, some, if-holds, false, Option-cases, if-false, [], inl, refl, inr, ◌∙◌,
  ap,
}
use promptshield_beta.Scanner.Compile.{Calls, compile_rules}
use promptshield_beta.Rules.Types.{RulePack, Performance}
use promptshield_beta.Scanner.Loader.{
  NewAho, Loaded, with_gate, with_performance, pack_loop, load_rule_packs, with_max_length,
  with_pack, with_first, merged_rules, with_timeout,
}
use promptshield_beta.Scanner.Evaluate.{CompiledRule, Hit, Scanner}
use promptshield_beta.Base.Text.{Str}
use promptshield_beta.Base.Int.{is_pos}
use promptshield_beta.Scanner.Loader.Settings.{with_timeout-scanner}

-- No pack has a positive MaxLength.
abbrev pub NoMaxLength : List RulePack → Type 0
NoMaxLength [] = Unit
NoMaxLength (p ∷ ps) =
    ((perf : Performance) → p.performance ≡ some perf → is_pos perf.max_length ≡ false)
    × NoMaxLength ps

module _ {C : Type 0} (k : Calls C) (new_aho : NewAho) where
  abbrev pub matcher : Loaded C → Option (Str → List Hit)
  matcher l = l.scanner.aho

  abbrev pub rules_in : Loaded C → List CompiledRule
  rules_in l = l.scanner.compiled

  -- Neither the matcher nor the rules change.
  abbrev Same : Loaded C → Loaded C → Type 0
  Same l l' = (matcher l ≡ matcher l') × (rules_in l ≡ rules_in l')

  with_gate-Same : (perf : Performance) (l : Loaded C) → Same (with_gate k new_aho perf l) l
  unfolding with_gate
  with_gate-Same perf l =
      if-holds (λ x. Same x l) perf.gate.enabled l _ (λ e. (refl, refl)) (λ e. (refl, refl))

  with_performance-Same :
      (perf : Performance) (l : Loaded C)
      → is_pos perf.max_length ≡ false
      → Same (with_performance k new_aho perf l) l
  unfolding with_performance with_max_length
  with_performance-Same perf l e =
      let kept : with_max_length k new_aho perf l ≡ l = if-false _ _ e in
      let s = with_timeout-scanner k new_aho perf l in
      let (a, b) = with_gate-Same perf (with_timeout k new_aho perf l) in
      let whole : with_performance k new_aho perf l
          ≡ with_gate k new_aho perf (with_timeout k new_aho perf l) =
        ap (λ x. with_gate k new_aho perf (with_timeout k new_aho perf x)) kept in
      (
        ap matcher whole ∙ a ∙ ap (λ (x : Scanner). x.aho) s,
        ap rules_in whole ∙ b ∙ ap (λ (x : Scanner). x.compiled) s,
      )

  pack_loop-Same :
      (ps : List RulePack) (l : Loaded C) → NoMaxLength ps → Same (pack_loop k new_aho ps l) l
  unfolding pack_loop with_pack with_first
  pack_loop-Same [] l h = (refl, refl)
  pack_loop-Same (p ∷ ps) l (h, hs) =
      let (a, b) = pack_loop-Same ps (with_pack k new_aho p l) hs in
      let (c, d) : Same (with_pack k new_aho p l) l = elim (Option-cases p.performance) [
        | inl z ↦ rw (with_pack, z) (refl, refl)
        | inr (perf, z) ↦
            rw (with_pack, z) (with_performance-Same perf (with_first k new_aho p l) (h perf z))
      ] in
      (a ∙ c, b ∙ d)

  -- A load of packs of which none has a positive MaxLength puts the compiled rules of the packs in
  -- the scanner, and leaves the matcher of the keywords as it was: the one built for the rules of an
  -- earlier load.
  pub load_rule_packs-matcher :
      (packs : List RulePack) (l : Loaded C)
      → NoMaxLength packs
      → (rules_in (load_rule_packs k new_aho packs l).0
          ≡ (compile_rules k l.defaults l.cache (merged_rules k new_aho packs l)).0)
        × (matcher (load_rule_packs k new_aho packs l).0 ≡ matcher l)
  unfolding load_rule_packs
  load_rule_packs-matcher packs l h = let (a, b) = pack_loop-Same packs _ h in (b, a)
