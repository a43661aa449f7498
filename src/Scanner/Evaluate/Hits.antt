-- ===== src/Scanner/Evaluate/Hits.antt =====
-- `evalKeywords` of internal/scanner/evaluate.go, where the matcher of all the rules' keywords has
-- hits.
use promptshield_beta.Scanner.Evaluate.Keywords.{
  HitWalk, keyword_key, hit_loop, eval_hits, eval_keywords,
}
use promptshield_beta.Scanner.Evaluate.{CompiledRule, State, Violation, is_seen, full, Hit}
use promptshield_beta.Base.{length-append, append-nil, some, none, length, ◌==◌}
use promptshield_beta.Base.{sym, ap, ◌∙◌, List, ◌≡◌, ℕ, Bool, false, true, refl, ◌+◌, arith}
use promptshield_beta.Base.Text.{Str}
use promptshield_beta.Base.{[], ◌∷◌, ◌++◌, ◌⊎◌}
use promptshield_beta.Scanner.Evaluate.Walk.{Has, hit_loop-meets}

eval_hits-loose :
    (b : Bool) (cr : CompiledRule) (lower : Str) (line : ℕ) (hits : List Hit) (st : State)
    → cr.require_all ≡ false
    → let w =
        hit_loop b cr lower line hits
          (record { state = st; found = []; first = none; any = false; stopped = false }) in
      w.any ≡ true → eval_hits b cr lower line hits st ≡ (w.state, true)
unfolding eval_hits
eval_hits-loose b cr lower line hits st all any = ground (arith, all, any)

hits_are_there : (pre post : List Hit) (h : Hit) → (length (pre ++ h ∷ post) == 0) ≡ false
hits_are_there pre post h = ground (arith, length-append pre (h ∷ post))

-- Where the matcher of all the rules' keywords has a hit, and that is the first hit or the scanner
-- does not stop at a rule's first match, a rule that is not case sensitive and wants neither all its
-- keywords nor whole words gets a violation at it, one column after the hit's index, and matches,
-- unless the hit's key was seen before, whichever keywords the rule itself has: the code does not
-- ask whether the hit's keyword is the rule's.
pub eval_keywords-any_hit :
    (b : Bool) (cr : CompiledRule) (lower text : Str) (line : ℕ) (kw : Str) (idx : ℕ)
    (pre post : List Hit) (st : State)
    → (b ≡ false) ⊎ (pre ≡ [])
    → cr.case_sensitive ≡ false
    → cr.require_all ≡ false
    → cr.whole_word ≡ false
    → is_seen (keyword_key cr line kw idx) st.seen ≡ false
    → (new : List Violation) × ((eval_keywords b
          (some (pre ++ (kw, idx) ∷ post))
          cr
          lower
          text
          line
          st).0.violations
        ≡ st.violations ++ new)
      × Has (full cr line (idx + 1)) new
      × ((eval_keywords b (some (pre ++ (kw, idx) ∷ post)) cr lower text line st).1 ≡ true)
eval_keywords-any_hit b cr lower text line kw idx pre post st free cs all whole fresh =
    let hits = pre ++ (kw, idx) ∷ post in
    let start : HitWalk = record {
      state = st;
      found = [];
      first = none;
      any = false;
      stopped = false;
    } in
    let w = hit_loop b cr lower line hits start in
    let ((new, grown, has), met) =
      hit_loop-meets b cr lower line (all, whole) kw idx st pre post start free refl
        ([], sym (append-nil st.violations), λ h. ground (arith, h, fresh)) in
    let (there, any) = has met in
    let result : eval_keywords b (some hits) cr lower text line st ≡ (w.state, true) =
      unfold eval_keywords in
      ground (
        arith,
        cs,
        hits_are_there pre post (kw, idx),
        eval_hits-loose b cr lower line hits st all any,
      ) in
    (
      new,
      ap (λ (r : State × Bool). r.0.violations) result ∙ grown,
      there,
      ap (λ (r : State × Bool). r.1) result,
    )
