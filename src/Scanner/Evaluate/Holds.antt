-- ===== src/Scanner/Evaluate/Holds.antt =====
-- `evalKeywords` of internal/scanner/evaluate.go: a property that every report keeps.
use promptshield_beta.Base.{
  List, ◌≡◌, false, ◌++◌, ◌∷◌, [], if-holds, Bool, ℕ, Option-cases, none, if◌then◌else◌, Bool-cases,
  inl, ◌&&◌, inr, not, length, Option, ◌+◌, ◌==◌, some, true,
}
use promptshield_beta.Scanner.Evaluate.{
  Violation, is_seen, State, report, CompiledRule, Hit, is_whole, plain, full,
}
use promptshield_beta.Base.Text.{Str}
use promptshield_beta.Scanner.Evaluate.Keywords.{
  on_hit, hit_loop, eval_hits, keyword_loop, occurrence, HitWalk, eval_plain, eval_keywords,
  all_key, column_of, require_loop, note_hit, after_report, keyword_key, all_seen,
}

-- A property of the violations and the keys that one report keeps.
module _ (P : List Violation → List Str → Type 0) (Good : Violation → Type 0)
    (grows : (vs : List Violation) (ks : List Str) (v : Violation) (k : Str)
      → is_seen k ks ≡ false
      → Good v
      → P vs ks
      → P (vs ++ v ∷ []) (k ∷ ks)) where
  unfoldable pub Holds : State → Type 0
  Holds st = P st.violations st.seen

  -- Whatever a rule reports on the line is good.
  abbrev pub Reports : CompiledRule → ℕ → Type 0
  Reports cr line = ((c : ℕ) → Good (plain cr line c)) × ((c : ℕ) → Good (full cr line c))

  pub choose :
      (b : Bool) (x y : State × Bool)
      → (b ≡ true → Holds x.0)
      → (b ≡ false → Holds y.0)
      → Holds (if b then x else y).0
  choose b x y = if-holds (λ (r : State × Bool). Holds r.0) b x y

  pub choose3 :
      (b : Bool) (x y : State × Bool × ℕ)
      → (b ≡ true → Holds x.0)
      → (b ≡ false → Holds y.0)
      → Holds (if b then x else y).0
  choose3 b x y = if-holds (λ (r : State × Bool × ℕ). Holds r.0) b x y

  pub choose_walk :
      (b : Bool) (x y : HitWalk)
      → (b ≡ true → Holds x.state)
      → (b ≡ false → Holds y.state)
      → Holds (if b then x else y).state
  choose_walk b x y = if-holds (λ (w : HitWalk). Holds w.state) b x y

  pub choose_state :
      (b : Bool) (x y : State)
      → (b ≡ true → Holds x)
      → (b ≡ false → Holds y)
      → Holds (if b then x else y)
  choose_state b x y = if-holds Holds b x y

  pub report-Holds :
      (k : Str) (v : Violation) (st : State) → Good v → Holds st → Holds (report k v st).0
  unfolding report
  report-Holds k v st good h =
      choose (is_seen k st.seen) _ _ (λ e. h)
        (λ e. unfold Holds in grows st.violations st.seen v k e good h)

  pub note_hit-Holds :
      (kw : Str) (idx : ℕ) (w : HitWalk) → Holds w.state → Holds (note_hit kw idx w).state
  unfolding note_hit
  note_hit-Holds kw idx w h = choose_walk (is_seen kw w.found) _ _ (λ e. h) (λ e. h)

  pub after_report-Holds :
      (b : Bool) (res : State × Bool) (w : HitWalk)
      → Holds res.0
      → Holds w.state
      → Holds (after_report b res w).state
  unfolding after_report
  after_report-Holds b res w h k = choose_walk res.1 _ _ (λ e. h) (λ e. k)

  pub on_hit-Holds :
      (b : Bool) (cr : CompiledRule) (lower : Str) (line : ℕ) (hit : Hit) (w : HitWalk)
      → Reports cr line
      → Holds w.state
      → Holds (on_hit b cr lower line hit w).state
  unfolding on_hit
  on_hit-Holds b cr lower line (kw, idx) w g h =
      let noted = note_hit-Holds kw idx w h in
      let reported =
        report-Holds (keyword_key cr line kw idx) (full cr line (idx + 1)) (note_hit kw idx w).state
          (g.1 (idx + 1)) noted in
      choose_walk (cr.whole_word && not (is_whole lower idx (length kw))) _ _ (λ e. h)
        (λ e.
          choose_walk cr.require_all _ _ (λ e. noted)
            (λ e. after_report-Holds b _ (note_hit kw idx w) reported noted))

  pub hit_loop-Holds :
      (b : Bool) (cr : CompiledRule) (lower : Str) (line : ℕ) (hits : List Hit) (w : HitWalk)
      → Reports cr line
      → Holds w.state
      → Holds (hit_loop b cr lower line hits w).state
  unfolding hit_loop
  hit_loop-Holds b cr lower line [] w g h = h
  hit_loop-Holds b cr lower line (hit ∷ hits) w g h =
      let now = on_hit-Holds b cr lower line hit w g h in
      elim (Bool-cases (on_hit b cr lower line hit w).stopped) [
        | inl e ↦ rw (e, hit_loop) now
        | inr e ↦ rw (e, hit_loop) (hit_loop-Holds b cr lower line hits _ g now)
      ]

  pub eval_hits-Holds :
      (b : Bool) (cr : CompiledRule) (lower : Str) (line : ℕ) (hits : List Hit) (st : State)
      → Reports cr line
      → Holds st
      → Holds (eval_hits b cr lower line hits st).0
  unfolding eval_hits
  eval_hits-Holds b cr lower line hits st g h =
      choose w.stopped _ _ (λ e. walked)
        (λ e.
          choose (cr.require_all && not (length cr.keywords == 0) && all_seen cr.keywords w.found) _
            _
            (λ e.
              report-Holds (all_key cr line) (full cr line (column_of w.first)) w.state
                (g.1 (column_of w.first)) walked)
            (λ e. walked))
    where
      w : HitWalk
      w =
          hit_loop b cr lower line hits
            (record { state = st; found = []; first = none; any = false; stopped = false })

      walked : Holds w.state
      walked = hit_loop-Holds b cr lower line hits _ g h

  pub keyword_loop-Holds :
      (cr : CompiledRule) (hay : Str) (line : ℕ) (kws : List Str) (st : State)
      → Reports cr line
      → Holds st
      → Holds (keyword_loop cr hay line kws st).0
  unfolding keyword_loop
  keyword_loop-Holds cr hay line [] st g h = h
  keyword_loop-Holds cr hay line (kw ∷ kws) st g h = elim (Option-cases (occurrence cr hay kw)) [
    | inl e ↦ rw (e, keyword_loop) (keyword_loop-Holds cr hay line kws st g h)
    | inr (idx, e) ↦
        rw (e, keyword_loop)
          (keyword_loop-Holds cr hay line kws _ g (report-Holds _ _ st (g.1 (idx + 1)) h))
  ]

  pub eval_plain-Holds :
      (cr : CompiledRule) (hay : Str) (line : ℕ) (st : State)
      → Reports cr line
      → Holds st
      → Holds (eval_plain cr hay line st).0
  unfolding eval_plain
  eval_plain-Holds cr hay line st g h =
      choose _ _ _ (λ e. required (require_loop cr hay cr.keywords none))
        (λ e. keyword_loop-Holds cr hay line cr.keywords st g h)
    where
      required :
          (o : Option (Option ℕ))
          → Holds
              (elim o as (λ x. State × Bool) [
                | none ↦ (st, false)
                | some first ↦ report (all_key cr line) (plain cr line (column_of first)) st
              ]).0
      required none = h
      required (some first) =
          report-Holds (all_key cr line) (plain cr line (column_of first)) st
            (g.0 (column_of first)) h

  pub eval_keywords-Holds :
      (b : Bool) (hits : Option (List Hit)) (cr : CompiledRule) (lower text : Str) (line : ℕ)
      (st : State)
      → Reports cr line
      → Holds st
      → Holds (eval_keywords b hits cr lower text line st).0
  unfolding eval_keywords
  eval_keywords-Holds b none cr lower text line st g h =
      eval_plain-Holds cr (if cr.case_sensitive then text else lower) line st g h
  eval_keywords-Holds b (some hs) cr lower text line st g h =
      choose _ _ _ (λ e. eval_hits-Holds b cr lower line hs st g h)
        (λ e. eval_plain-Holds cr (if cr.case_sensitive then text else lower) line st g h)
