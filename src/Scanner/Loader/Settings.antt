-- ===== src/Scanner/Loader/Settings.antt =====
-- internal/scanner/loader.go: what the packs' settings do to the scanner's.
use promptshield_beta.Base.{
  ℕ, ◌<◌, List, ◌≤◌, ◌∷◌, ◌≡◌, some, true, [], arith, false, Bool-cases, if-holds, ◌∙◌, refl, ap,
  inl, ◌||◌, inr, if-true, tests, if-false, Option, Option-cases, none, ◌≢◌, sym, subst,
}
use promptshield_beta.Scanner.Loader.{
  tighter, NewAho, with_performance, Loaded, with_timeout, with_gate, with_max_length, take_timeout,
  with_pack, pack_loop, load_rule_packs, with_first,
}
use promptshield_beta.Scanner.Compile.{Calls}
use promptshield_beta.Base.Int.{ℤ, is_pos, pos_part, pos, negsuc, same_int, ltb_int}
use promptshield_beta.Rules.Types.{RulePack, Performance}
use promptshield_beta.Scanner.Evaluate.{Scanner}

-- Among limits of which 0 is none, m keeps to n.
abbrev pub Within : ℕ → ℕ → Type 0
Within m n = 0 < n → (0 < m) × (m ≤ n)

-- m keeps to the MaxLength of each pack.
abbrev pub KeepsTo : ℕ → List RulePack → Type 0
KeepsTo m [] = Unit
KeepsTo m (p ∷ ps) =
    ((perf : Performance) → p.performance ≡ some perf → Within m (pos_part perf.max_length))
    × KeepsTo m ps

tighter-Within :
    (l : ℤ) (n : ℕ)
    → is_pos l ≡ true
    → (m : ℕ) × (tighter l (pos n) ≡ pos m) × Within m n × (0 < m) × (m ≤ pos_part l)
unfolding tighter
tighter-Within (negsuc x) n h = absurd (ground (arith, h))
tighter-Within (pos x) n h =
    elim (Bool-cases (same_int (pos n) (pos 0) || ltb_int (pos x) (pos n))) [
      | inl e ↦ (
        x,
        if-true (pos x) (pos n) e,
        (λ p. (omega (tests, h), ground (arith, e, p))),
        omega (tests, h),
        omega arith,
      )
      | inr e ↦ (
        n,
        if-false (pos x) (pos n) e,
        (λ p. (p, omega arith)),
        ground (arith, e),
        ground (arith, e),
      )
    ]

not_pos : (l : ℤ) → is_pos l ≡ false → pos_part l ≡ 0
not_pos (pos n) h = ground (arith, h)
not_pos (negsuc n) h = refl

none-some : (perf : Performance) → none ≢ some perf
none-some perf e = absurd (ground (arith, e))

some_eq : (a b : Performance) → some a ≡ some b → a ≡ b
some_eq a b e = ap value e
  where
    value : Option Performance → Performance
    value none = a
    value (some q) = q

module _ {C : Type 0} (k : Calls C) (new_aho : NewAho) where
  abbrev pub limit_of : Loaded C → ℤ
  limit_of l = l.scanner.max_line_for_regex

  take_timeout-scanner :
      (d : Option ℤ) (l : Loaded C) → (take_timeout k new_aho d l).scanner ≡ l.scanner
  unfolding take_timeout
  take_timeout-scanner none l = refl
  take_timeout-scanner (some d) l = refl

  pub with_timeout-scanner :
      (perf : Performance) (l : Loaded C) → (with_timeout k new_aho perf l).scanner ≡ l.scanner
  unfolding with_timeout
  with_timeout-scanner perf l = take_timeout-scanner _ l

  with_gate-limit :
      (perf : Performance) (l : Loaded C) → limit_of (with_gate k new_aho perf l) ≡ limit_of l
  unfolding with_gate
  with_gate-limit perf l =
      if-holds (λ x. limit_of x ≡ limit_of l) perf.gate.enabled l _ (λ e. refl) (λ e. refl)

  after_max_length :
      (perf : Performance) (l : Loaded C)
      → limit_of (with_performance k new_aho perf l) ≡ limit_of (with_max_length k new_aho perf l)
  unfolding with_performance
  after_max_length perf l =
      let l' = with_max_length k new_aho perf l in
      with_gate-limit perf (with_timeout k new_aho perf l')
      ∙ ap (λ (s : Scanner). s.max_line_for_regex) (with_timeout-scanner perf l')

  with_max_length-Within :
      (perf : Performance) (l : Loaded C) (n : ℕ)
      → limit_of l ≡ pos n
      → (m : ℕ) × (limit_of (with_max_length k new_aho perf l) ≡ pos m)
        × Within m n
        × Within m (pos_part perf.max_length)
  unfolding with_max_length
  with_max_length-Within perf l n e = elim (Bool-cases (is_pos perf.max_length)) [
    | inl p ↦
        let (m, t, old, low, high) = tighter-Within perf.max_length n p in
        (m, rw (with_max_length, p) (ap (tighter perf.max_length) e ∙ t), old, (λ q. (low, high)))
    | inr p ↦ (
      n,
      rw (with_max_length, p) e,
      (λ q. (q, omega arith)),
      (λ q. absurd (omega (arith, q, not_pos perf.max_length p))),
    )
  ]

  -- After a pack the limit keeps to the one before it and to the pack's.
  AfterPack : ℕ → RulePack → Loaded C → Type 0
  AfterPack n p l =
      (m : ℕ) × (limit_of l ≡ pos m)
      × Within m n
      × ((perf : Performance) → p.performance ≡ some perf → Within m (pos_part perf.max_length))

  with_pack-AfterPack :
      (p : RulePack) (l : Loaded C) (n : ℕ)
      → limit_of l ≡ pos n
      → AfterPack n p (with_pack k new_aho p l)
  unfolding with_pack AfterPack
  with_pack-AfterPack p l n e = elim (Option-cases p.performance) [
    | inl z ↦ (
      n,
      rw (with_pack, z) e,
      (λ q. (q, omega arith)),
      λ perf h. absurd (none-some perf (sym z ∙ h)),
    )
    | inr (perf, z) ↦
        let l' = with_first k new_aho p l in
        let (m, e', old, own) = with_max_length-Within perf l' n e in
        (
          m,
          rw (with_pack, z) (after_max_length perf l' ∙ e'),
          old,
          λ perf' h.
              subst (λ (q : Performance). Within m (pos_part q.max_length))
                (some_eq perf perf' (sym z ∙ h)) own,
        )
  ]

  Within-trans : (m n o : ℕ) → Within m n → Within n o → Within m o
  Within-trans m n o h g p = let (q, a) = g p in let (r, b) = h q in (r, omega (arith, a, b))

  pack_loop-KeepsTo :
      (ps : List RulePack) (l : Loaded C) (n : ℕ)
      → limit_of l ≡ pos n
      → (m : ℕ) × (limit_of (pack_loop k new_aho ps l) ≡ pos m) × Within m n × KeepsTo m ps
  unfolding pack_loop AfterPack
  pack_loop-KeepsTo [] l n e = (n, e, (λ p. (p, omega arith)), tt)
  pack_loop-KeepsTo (p ∷ ps) l n e =
      let (o, e', old, own) = with_pack-AfterPack p l n e in
      let (m, e2, older, rest) = pack_loop-KeepsTo ps (with_pack k new_aho p l) o e' in
      (
        m,
        e2,
        Within-trans m o n older old,
        ((λ perf z. Within-trans m o (pos_part perf.max_length) older (own perf z)), rest),
      )

  -- After a load the most restrictive limit on the length of a line holds: from a limit n, of which
  -- 0 is none, it is a limit m that is positive and at most n, if n is positive, and positive and at
  -- most MaxLength for each pack whose MaxLength is positive.
  pub load_rule_packs-limit :
      (packs : List RulePack) (l : Loaded C) (n : ℕ)
      → limit_of l ≡ pos n
      → (m : ℕ) × (limit_of (load_rule_packs k new_aho packs l).0 ≡ pos m)
        × Within m n
        × KeepsTo m packs
  unfolding load_rule_packs
  load_rule_packs-limit packs l n e = pack_loop-KeepsTo packs _ n e
