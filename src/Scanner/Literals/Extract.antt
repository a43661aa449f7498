-- ===== src/Scanner/Literals/Extract.antt =====
-- internal/scanner/regex_literals.go: the list of tokens that a regex gives.
use promptshield_beta.Base.Text.{Str, same, eq_of_same, same_refl}
use promptshield_beta.Scanner.Literals.{
  dedupe_loop, no_walk, extract_tokens, walk_byte, dedupe, begin_run, walk, is_token_char, begun,
  is_meta, end_run, is_upper, to_lower, Walk,
}
use promptshield_beta.Base.{
  List, ◌∷◌, ℕ, ◌≡◌, Bool-cases, Option, true, ◌&&◌, false, inl, refl, ap, not, [], inr, arith, ◌∙◌,
  Bool, some, ◌≤◌, ◌==◌, ◌++◌, length, append-nil, append_assoc, leb, none,
}
use promptshield_beta.Scanner.Evaluate.{is_seen}
use promptshield_beta.Scanner.Literals.Tokens.{
  RunOk, AreTokens, WalkOk, walk-WalkOk, end_run-WalkOk,
}
use promptshield_beta.Scanner.Verifiers.{all_bytes}

-- Equal strings are seen alike.
seen_same : (s k : Str) (ks : List Str) → same s k ≡ true → is_seen s ks ≡ is_seen k ks
seen_same s k ks e = ap (λ (x : Str). is_seen x ks) (eq_of_same s k e)

is_seen-dedupe_loop :
    (k : Str) (known ss : List Str)
    → is_seen k (dedupe_loop known ss) ≡ (is_seen k ss && not (is_seen k known))
unfolding dedupe_loop is_seen
is_seen-dedupe_loop k known [] = refl
is_seen-dedupe_loop k known (s ∷ ss) = elim (Bool-cases (is_seen s known)) [
  | inl e ↦
      rw (dedupe_loop, e) (ground (arith, e, seen_same s k known, is_seen-dedupe_loop k known ss))
  | inr e ↦
      rw (dedupe_loop, e)
        (ground (arith, e, seen_same s k known, is_seen-dedupe_loop k (s ∷ known) ss))
]

abbrev pub NoRepeats : List Str → Type 0
NoRepeats [] = Unit
NoRepeats (s ∷ ss) = (is_seen s ss ≡ false) × NoRepeats ss

dedupe_loop-NoRepeats : (known ss : List Str) → NoRepeats (dedupe_loop known ss)
unfolding dedupe_loop
dedupe_loop-NoRepeats known [] = tt
dedupe_loop-NoRepeats known (s ∷ ss) = elim (Bool-cases (is_seen s known)) [
  | inl e ↦ rw (dedupe_loop, e) (dedupe_loop-NoRepeats known ss)
  | inr e ↦
      rw (dedupe_loop, e)
        (
          is_seen-dedupe_loop s (s ∷ known) ss ∙ rw (is_seen, same_refl s) (ground arith),
          dedupe_loop-NoRepeats (s ∷ known) ss,
        )
]

dedupe_loop-AreTokens :
    (least : ℕ) (known ss : List Str) → AreTokens least ss → AreTokens least (dedupe_loop known ss)
unfolding dedupe_loop
dedupe_loop-AreTokens least known [] h = tt
dedupe_loop-AreTokens least known (s ∷ ss) (x, h) = elim (Bool-cases (is_seen s known)) [
  | inl e ↦ rw (dedupe_loop, e) (dedupe_loop-AreTokens least known ss h)
  | inr e ↦ rw (dedupe_loop, e) (x, dedupe_loop-AreTokens least (s ∷ known) ss h)
]

no_walk-WalkOk : (least : ℕ) → WalkOk least no_walk
unfolding no_walk RunOk
no_walk-WalkOk least = record { tokens_ok = tt; run_ok = tt; class_ok = λ e. refl }

-- The tokens of a regex are without repeats, each as long as the least length or 4, if that is less,
-- and made of bytes of words without capitals, and of backslashes.
pub extract_tokens-AreTokens :
    (least : ℕ) (expr : Str)
    → AreTokens least (extract_tokens least expr) × NoRepeats (extract_tokens least expr)
unfolding extract_tokens dedupe
extract_tokens-AreTokens least expr =
    let w = walk least expr no_walk in
    let h = walk-WalkOk least expr no_walk (no_walk-WalkOk least) in
    let done =
      end_run-WalkOk least least w w.in_class w.escaped (omega arith) h.tokens_ok h.run_ok in
    (
      dedupe_loop-AreTokens least [] (end_run least w).tokens done.tokens_ok,
      dedupe_loop-NoRepeats [] (end_run least w).tokens,
    )

word_plain :
    (c : ℕ)
    → is_token_char c ≡ true
    → ((c == b'\\') ≡ false)
      × ((c == b'[') ≡ false)
      × ((c == b']' && false) ≡ false)
      × (is_meta c ≡ false)
unfolding is_token_char is_meta is_upper
word_plain c h = (ground (arith, h), ground (arith, h), ground (arith, h), ground (arith, h))

all_bytes-cons :
    (p : ℕ → Bool) (c : ℕ) (t : Str)
    → all_bytes p (c ∷ t) ≡ true
    → (p c ≡ true) × (all_bytes p t ≡ true)
unfolding all_bytes
all_bytes-cons p c t h = (ground (arith, h), ground (arith, h))

-- A byte of a word only makes the run longer.
walk_byte-word :
    (least c : ℕ) (ts : List Str) (run : Option Str)
    → is_token_char c ≡ true
    → walk_byte least c (record { tokens = ts; in_class = false; escaped = false; run = run })
      ≡ record { tokens = ts; in_class = false; escaped = false; run = begun c run }
unfolding walk_byte begin_run
walk_byte-word least c ts run h =
    let (e1, e2, e3, e4) = word_plain c h in rw (e1, e2, e3, e4, h) refl

walk-word :
    (least : ℕ) (t u : Str) (ts : List Str)
    → all_bytes is_token_char t ≡ true
    → walk least t (record { tokens = ts; in_class = false; escaped = false; run = some u })
      ≡ record { tokens = ts; in_class = false; escaped = false; run = some (u ++ t) }
unfolding walk begun
walk-word least [] u ts h = rw (append-nil u) refl
walk-word least (c ∷ t) u ts h =
    let (h1, h2) = all_bytes-cons is_token_char c t h in
    rw (walk_byte-word least c ts (some u) h1, ← append_assoc u (c ∷ []) t)
      (walk-word least t (u ++ c ∷ []) ts h2)

one_token :
    (least : ℕ) (u : Str)
    → leb least (length u) ≡ true
    → dedupe
        (end_run least
          (record { tokens = []; in_class = false; escaped = false; run = some u })).tokens
      ≡ to_lower u ∷ []
unfolding dedupe dedupe_loop end_run
one_token least u e = rw e refl

-- A regex that is one word, at least as long as the least length, gives that word alone, in lower
-- case.
pub extract_tokens-word :
    (least c : ℕ) (t : Str)
    → all_bytes is_token_char (c ∷ t) ≡ true
    → least ≤ length (c ∷ t)
    → extract_tokens least (c ∷ t) ≡ to_lower (c ∷ t) ∷ []
unfolding extract_tokens walk no_walk begun
extract_tokens-word least c t h m =
    let (h1, h2) = all_bytes-cons is_token_char c t h in
    ap (λ (w : Walk). dedupe (end_run least w).tokens)
      (ap (walk least t) (walk_byte-word least c [] none h1) ∙ walk-word least t (c ∷ []) [] h2)
    ∙ one_token least (c ∷ t) (ground (arith, m))
