-- ===== src/Scanner/Loader/Ids.antt =====
-- internal/scanner/loader.go: the rules that are in the scanner after a load.
use promptshield_beta.Base.{
  List, map, ◌≡◌, ◌∙◌, Option, if-holds, Option-cases, ◌∷◌, ap₂, ap, some, inl, [], refl, sym, none,
  inr,
}
use promptshield_beta.Scanner.Compile.{Calls}
use promptshield_beta.Rules.Types.{Rule, Performance, RulePack}
use promptshield_beta.Scanner.Evaluate.{CompiledRule}
use promptshield_beta.Scanner.Loader.{
  NewAho, Loaded, with_max_length, take_timeout, with_gate, with_performance, with_pack, pack_loop,
  merged_rules, load_rule_packs, with_timeout, with_first,
}
use promptshield_beta.Base.Text.{Str}
use promptshield_beta.Base.Int.{ℤ, is_pos}
use promptshield_beta.Scanner.Compile.Kept.{compile_rules_lem}

abbrev pub ids : List Rule → List Str
ids rs = map (λ (r : Rule). r.id) rs

abbrev pub compiled_ids : List CompiledRule → List Str
compiled_ids crs = map (λ (cr : CompiledRule). cr.id) crs

module _ {C : Type 0} (k : Calls C) (new_aho : NewAho) where
  -- What the packs' settings leave alone.
  abbrev pub Left : Loaded C → Loaded C → Type 0
  Left l l' =
      (l.scanner.compiled ≡ l'.scanner.compiled)
      × (l.composition_strategy ≡ l'.composition_strategy)
      × (l.max_pattern_length ≡ l'.max_pattern_length)

  Left-trans : (l m n : Loaded C) → Left l m → Left m n → Left l n
  Left-trans l m n (a, b, c) (d, e, f) = (a ∙ d, b ∙ e, c ∙ f)

  with_max_length-Left :
      (perf : Performance) (l : Loaded C) → Left (with_max_length k new_aho perf l) l
  unfolding with_max_length
  with_max_length-Left perf l =
      if-holds (λ x. Left x l) (is_pos perf.max_length) _ l (λ e. (refl, refl, refl))
        (λ e. (refl, refl, refl))

  take_timeout-Left : (d : Option ℤ) (l : Loaded C) → Left (take_timeout k new_aho d l) l
  unfolding take_timeout
  take_timeout-Left none l = (refl, refl, refl)
  take_timeout-Left (some d) l = (refl, refl, refl)

  with_gate-Left : (perf : Performance) (l : Loaded C) → Left (with_gate k new_aho perf l) l
  unfolding with_gate
  with_gate-Left perf l =
      if-holds (λ x. Left x l) perf.gate.enabled l _ (λ e. (refl, refl, refl))
        (λ e. (refl, refl, refl))

  with_performance-Left :
      (perf : Performance) (l : Loaded C) → Left (with_performance k new_aho perf l) l
  unfolding with_performance with_timeout
  with_performance-Left perf l =
      let m = with_max_length k new_aho perf l in
      let n = with_timeout k new_aho perf m in
      Left-trans (with_gate k new_aho perf n) n l (with_gate-Left perf n)
        (Left-trans n m l (take_timeout-Left _ m) (with_max_length-Left perf l))

  with_pack-Left : (p : RulePack) (l : Loaded C) → Left (with_pack k new_aho p l) l
  unfolding with_pack with_first
  with_pack-Left p l = elim (Option-cases p.performance) [
    | inl z ↦ rw (with_pack, z) (refl, refl, refl)
    | inr (perf, z) ↦ rw (with_pack, z) (with_performance-Left perf (with_first k new_aho p l))
  ]

  pack_loop-Left : (ps : List RulePack) (l : Loaded C) → Left (pack_loop k new_aho ps l) l
  unfolding pack_loop
  pack_loop-Left [] l = (refl, refl, refl)
  pack_loop-Left (p ∷ ps) l =
      Left-trans (pack_loop k new_aho ps (with_pack k new_aho p l)) (with_pack k new_aho p l) l
        (pack_loop-Left ps (with_pack k new_aho p l)) (with_pack-Left p l)

  -- The merge reads two settings.
  same_merge :
      (packs : List RulePack) (l l' : Loaded C)
      → l.composition_strategy ≡ l'.composition_strategy
      → l.max_pattern_length ≡ l'.max_pattern_length
      → merged_rules k new_aho packs l ≡ merged_rules k new_aho packs l'
  unfolding merged_rules
  same_merge packs l l' e f =
      ap₂
        (λ (x : Str) (y : ℤ).
          merged_rules k new_aho packs
            (record l { composition_strategy = x; max_pattern_length = y }))
        e f

  -- The scanner holds the rules that the packs merge to, also when the packs are merged again with
  -- the settings after the load.
  pub load_rule_packs-ids :
      (packs : List RulePack) (l : Loaded C)
      → let l' = (load_rule_packs k new_aho packs l).0 in
        compiled_ids l'.scanner.compiled ≡ ids (merged_rules k new_aho packs l')
  unfolding load_rule_packs
  load_rule_packs-ids packs l =
      let (a, b, c) = pack_loop-Left packs _ in
      ap compiled_ids a
      ∙ (compile_rules_lem k l.defaults l.cache (merged_rules k new_aho packs l)).0
      ∙ ap ids (same_merge packs l (load_rule_packs k new_aho packs l).0 (sym b) (sym c))
