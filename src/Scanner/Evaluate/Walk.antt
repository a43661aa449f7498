-- ===== src/Scanner/Evaluate/Walk.antt =====
-- The loop over the matcher's hits in `evalKeywords` of internal/scanner/evaluate.go: what it has
-- reported on the way.
use promptshield_beta.Scanner.Evaluate.Keywords.{
  on_hit, note_hit, after_report, HitWalk, keyword_key, hit_loop,
}
use promptshield_beta.Scanner.Evaluate.Keys.{keyword_key-index}
use promptshield_beta.Scanner.Evaluate.{CompiledRule, report, State, Violation, is_seen, full, Hit}
use promptshield_beta.Base.{
  append_assoc, subst, sym, ap, ◌∙◌, Bool-cases, List, ◌≡◌, ℕ, Bool, false, true, refl, ◌+◌, arith,
}
use promptshield_beta.Base.Text.{Str, same, eq_of_same, same_refl}
use promptshield_beta.Base.{[], ◌∷◌, ◌++◌, ◌⊎◌, inl, inr}

-- The violation is one of the list.
abbrev pub Has : Violation → List Violation → Type 0
Has v [] = ⊥
Has v (x ∷ xs) = (x ≡ v) ⊎ Has v xs

Has-append : (v : Violation) (xs ys : List Violation) → Has v xs → Has v (xs ++ ys)
Has-append v [] ys h = absurd h
Has-append v (x ∷ xs) ys (inl e) = inl e
Has-append v (x ∷ xs) ys (inr h) = inr (Has-append v xs ys h)

Has-last : (v : Violation) (xs : List Violation) → Has v (xs ++ v ∷ [])
Has-last v [] = inl refl
Has-last v (x ∷ xs) = inr (Has-last v xs)

-- A rule that is reported at its first keyword, wherever that stands.
abbrev pub IsLoose : CompiledRule → Type 0
IsLoose cr = (cr.require_all ≡ false) × (cr.whole_word ≡ false)

-- What was appended since the state was `st`; if the hit's key was seen, its violation is in it.
abbrev pub Walked : CompiledRule → ℕ → Str → ℕ → State → HitWalk → Type 0
Walked cr line kw idx st w =
    (new : List Violation) × (w.state.violations ≡ st.violations ++ new)
    × (is_seen (keyword_key cr line kw idx) w.state.seen ≡ true
        → Has (full cr line (idx + 1)) new × (w.any ≡ true))

module _ (b : Bool) (cr : CompiledRule) (lower : Str) (line : ℕ) (loose : IsLoose cr) where
  -- A hit whose key was seen is only noted.
  on_hit-seen :
      (kw : Str) (idx : ℕ) (w : HitWalk)
      → is_seen (keyword_key cr line kw idx) w.state.seen ≡ true
      → ((on_hit b cr lower line (kw, idx) w).state ≡ w.state)
        × ((on_hit b cr lower line (kw, idx) w).any ≡ w.any)
        × ((on_hit b cr lower line (kw, idx) w).stopped ≡ w.stopped)
  unfolding on_hit note_hit after_report report
  on_hit-seen kw idx w h = ground (arith, h, loose)

  -- Another is reported.
  on_hit-fresh :
      (kw : Str) (idx : ℕ) (w : HitWalk)
      → is_seen (keyword_key cr line kw idx) w.state.seen ≡ false
      → ((on_hit b cr lower line (kw, idx) w).state ≡ record w.state {
        violations = w.state.violations ++ full cr line (idx + 1) ∷ [];
        seen = keyword_key cr line kw idx ∷ w.state.seen;
      })
        × ((on_hit b cr lower line (kw, idx) w).any ≡ true)
        × ((on_hit b cr lower line (kw, idx) w).stopped ≡ b)
  unfolding on_hit note_hit after_report report
  on_hit-fresh kw idx w h = ground (arith, h, loose)

  module _ (kw : Str) (idx : ℕ) (st : State) where
    -- The hit has been met.
    abbrev pub IsMet : HitWalk → Type 0
    IsMet w =
        Walked cr line kw idx st w × (is_seen (keyword_key cr line kw idx) w.state.seen ≡ true)

    on_hit-Walked :
        (kw' : Str) (idx' : ℕ) (w : HitWalk)
        → Walked cr line kw idx st w
        → Walked cr line kw idx st (on_hit b cr lower line (kw', idx') w)
    on_hit-Walked kw' idx' w (new, e, has) =
        elim (Bool-cases (is_seen (keyword_key cr line kw' idx') w.state.seen)) [
          | inl s ↦
              let (state, any, stopped) = on_hit-seen kw' idx' w s in
              (
                new,
                ap (λ (t : State). t.violations) state ∙ e,
                λ h.
                    let (a, k) = has (
                      ap (λ (t : State). is_seen (keyword_key cr line kw idx) t.seen) (sym state)
                      ∙ h) in
                    (a, any ∙ k),
              )
          | inr s ↦
              let (state, any, stopped) = on_hit-fresh kw' idx' w s in
              let v' = full cr line (idx' + 1) in
              (
                new ++ v' ∷ [],
                ap (λ (t : State). t.violations) state
                    ∙ ap (λ l. l ++ v' ∷ []) e
                    ∙ append_assoc st.violations new (v' ∷ []),
                λ h. (
                  grown kw' idx' w new has (
                      sym (ap (λ (t : State). is_seen (keyword_key cr line kw idx) t.seen) state)
                      ∙ h),
                  any,
                ),
              )
        ]
      where
        grown :
            (kw' : Str) (idx' : ℕ) (w : HitWalk) (new : List Violation)
            → (is_seen (keyword_key cr line kw idx) w.state.seen ≡ true
                → Has (full cr line (idx + 1)) new × (w.any ≡ true))
            → is_seen (keyword_key cr line kw idx) (keyword_key cr line kw' idx' ∷ w.state.seen)
              ≡ true
            → Has (full cr line (idx + 1)) (new ++ full cr line (idx' + 1) ∷ [])
        grown kw' idx' w new has h =
            elim (Bool-cases (same (keyword_key cr line kw' idx') (keyword_key cr line kw idx))) [
              | inl k ↦
                  let at : idx' ≡ idx =
                    keyword_key-index cr line kw' kw idx' idx (eq_of_same _ _ k) in
                  subst (λ i. Has (full cr line (idx + 1)) (new ++ full cr line (i + 1) ∷ []))
                    (sym at) (Has-last (full cr line (idx + 1)) new)
              | inr k ↦
                  Has-append (full cr line (idx + 1)) new (full cr line (idx' + 1) ∷ [])
                    (has (unfold is_seen in ground (arith, h, k))).0
            ]

    on_hit-meets :
        (w : HitWalk)
        → is_seen (keyword_key cr line kw idx) (on_hit b cr lower line (kw, idx) w).state.seen
          ≡ true
    on_hit-meets w = elim (Bool-cases (is_seen (keyword_key cr line kw idx) w.state.seen)) [
      | inl s ↦
          ap (λ (t : State). is_seen (keyword_key cr line kw idx) t.seen) (on_hit-seen kw idx w s).0
          ∙ s
      | inr s ↦
          ap (λ (t : State). is_seen (keyword_key cr line kw idx) t.seen)
            (on_hit-fresh kw idx w s).0
          ∙ unfold is_seen in rw (same_refl (keyword_key cr line kw idx)) refl
    ]

    on_hit-keeps :
        (kw' : Str) (idx' : ℕ) (w : HitWalk)
        → is_seen (keyword_key cr line kw idx) w.state.seen ≡ true
        → is_seen (keyword_key cr line kw idx) (on_hit b cr lower line (kw', idx') w).state.seen
          ≡ true
    on_hit-keeps kw' idx' w h =
        elim (Bool-cases (is_seen (keyword_key cr line kw' idx') w.state.seen)) [
          | inl s ↦
              ap (λ (t : State). is_seen (keyword_key cr line kw idx) t.seen)
                (on_hit-seen kw' idx' w s).0
              ∙ h
          | inr s ↦
              ap (λ (t : State). is_seen (keyword_key cr line kw idx) t.seen)
                (on_hit-fresh kw' idx' w s).0
              ∙ unfold is_seen in ground (arith, h)
        ]

    -- Once the hit was met, the rest of the loop keeps its violation.
    hit_loop-IsMet :
        (hits : List Hit) (w : HitWalk) → IsMet w → IsMet (hit_loop b cr lower line hits w)
    unfolding hit_loop
    hit_loop-IsMet [] w m = m
    hit_loop-IsMet ((kw', idx') ∷ hits) w (walked, met) =
        let w' = on_hit b cr lower line (kw', idx') w in
        let m' : IsMet w' = (on_hit-Walked kw' idx' w walked, on_hit-keeps kw' idx' w met) in
        elim (Bool-cases w'.stopped) [
          | inl e ↦ rw (e, hit_loop) m'
          | inr e ↦ rw (e, hit_loop) (hit_loop-IsMet hits w' m')
        ]

    -- The loop comes to the hit, if it stands first or no report ends the loop.
    pub hit_loop-meets :
        (pre post : List Hit) (w : HitWalk)
        → (b ≡ false) ⊎ (pre ≡ [])
        → w.stopped ≡ false
        → Walked cr line kw idx st w
        → IsMet (hit_loop b cr lower line (pre ++ (kw, idx) ∷ post) w)
    unfolding hit_loop
    hit_loop-meets [] post w free going walked =
        let w' = on_hit b cr lower line (kw, idx) w in
        let m' : IsMet w' = (on_hit-Walked kw idx w walked, on_hit-meets w) in
        elim (Bool-cases w'.stopped) [
          | inl e ↦ rw (e, hit_loop) m'
          | inr e ↦ rw (e, hit_loop) (hit_loop-IsMet post w' m')
        ]
    hit_loop-meets ((kw', idx') ∷ pre) post w (inr none_before) going walked = cc
    hit_loop-meets ((kw', idx') ∷ pre) post w (inl free) going walked =
        let w' = on_hit b cr lower line (kw', idx') w in
        let goes : w'.stopped ≡ false =
          elim (Bool-cases (is_seen (keyword_key cr line kw' idx') w.state.seen)) [
            | inl s ↦ (on_hit-seen kw' idx' w s).2 ∙ going
            | inr s ↦ (on_hit-fresh kw' idx' w s).2 ∙ free
          ] in
        rw (goes, hit_loop)
          (hit_loop-meets pre post w' (inl free) goes (on_hit-Walked kw' idx' w walked))
