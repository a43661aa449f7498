-- ===== src/Scanner/Literals/Tokens.antt =====
-- internal/scanner/regex_literals.go: what a token is.
use promptshield_beta.Base.{
  ℕ, Option, Bool, List, not, ◌||◌, ◌≡◌, min, ◌∷◌, ◌++◌, some, ◌&&◌, ◌==◌, true, ◌≤◌, [], arith,
  length, none, refl, leb, if-holds, leb→le, length-map, false,
}
use promptshield_beta.Scanner.Literals.{
  lower_byte, end_run, is_token_char, to_lower, Walk, is_upper, keep_byte, begin_run, walk_byte,
  is_meta, is_running, with_run, longer, begun, walk,
}
use promptshield_beta.Scanner.Verifiers.{all_bytes}
use promptshield_beta.Base.Text.{Str}

-- The bytes that a token may have: those of a word, without capitals, and the backslash of an
-- escape that ends a run.
unfoldable pub is_token_byte : ℕ → Bool
is_token_byte b = not (is_upper b) && (is_token_char b || b == b'\\')

unfoldable pub is_run_byte : ℕ → Bool
is_run_byte b = is_token_char b || b == b'\\'

lower_byte-is_token_byte : (b : ℕ) → is_run_byte b ≡ true → is_token_byte (lower_byte b) ≡ true
unfolding is_run_byte is_token_byte lower_byte is_token_char is_upper
lower_byte-is_token_byte b h = ground (arith, h)

to_lower-all_bytes :
    (t : Str) → all_bytes is_run_byte t ≡ true → all_bytes is_token_byte (to_lower t) ≡ true
unfolding all_bytes to_lower
to_lower-all_bytes [] h = refl
to_lower-all_bytes (b ∷ t) h = ground (arith, h, lower_byte-is_token_byte b, to_lower-all_bytes t)

all_bytes-append :
    (p : ℕ → Bool) (t u : Str)
    → all_bytes p t ≡ true
    → all_bytes p u ≡ true
    → all_bytes p (t ++ u) ≡ true
unfolding all_bytes
all_bytes-append p [] u h k = k
all_bytes-append p (b ∷ t) u h k = ground (arith, h, all_bytes-append p t u)

-- A token: it has at least the length that is asked for, or 4 if that is less.
abbrev pub IsToken : ℕ → Str → Type 0
IsToken least t = (min least 4 ≤ length t) × (all_bytes is_token_byte t ≡ true)

abbrev pub AreTokens : ℕ → List Str → Type 0
AreTokens least [] = Unit
AreTokens least (t ∷ ts) = IsToken least t × AreTokens least ts

AreTokens-append :
    (least : ℕ) (ts us : List Str)
    → AreTokens least ts
    → AreTokens least us
    → AreTokens least (ts ++ us)
AreTokens-append least [] us h k = k
AreTokens-append least (t ∷ ts) us (x, h) k = (x, AreTokens-append least ts us h k)

unfoldable pub RunOk : Option Str → Type 0
RunOk none = Unit
RunOk (some t) = all_bytes is_run_byte t ≡ true

-- What the loop keeps: there is no run inside a class.
pub record WalkOk (least : ℕ) (w : Walk) : Type 0 where
  pub tokens_ok : AreTokens least w.tokens
  pub run_ok : RunOk w.run
  pub class_ok : w.in_class ≡ true → w.run ≡ none

with_run-AreTokens :
    (least n : ℕ) (run : Option Str) (ts : List Str)
    → min least 4 ≤ n
    → AreTokens least ts
    → RunOk run
    → AreTokens least (with_run n run ts)
unfolding with_run RunOk to_lower
with_run-AreTokens least n none ts m h k = h
with_run-AreTokens least n (some t) ts m h k =
    if-holds (AreTokens least) (leb n (length t)) (ts ++ to_lower t ∷ []) ts
      (λ e. AreTokens-append least ts (to_lower t ∷ []) h (
        (omega (arith, m, leb→le n (length t) e, length-map t lower_byte), to_lower-all_bytes t k),
        tt,
      ))
      (λ e. h)

-- The state after `end_run`, whatever the flags.
pub end_run-WalkOk :
    (least n : ℕ) (w : Walk) (inside esc : Bool)
    → min least 4 ≤ n
    → AreTokens least w.tokens
    → RunOk w.run
    → WalkOk least (record (end_run n w) { in_class = inside; escaped = esc })
unfolding RunOk end_run
end_run-WalkOk least n w inside esc m h k = record {
  tokens_ok = with_run-AreTokens least n w.run w.tokens m h k;
  run_ok = tt;
  class_ok = λ e. refl;
}

one_byte : (c : ℕ) → is_run_byte c ≡ true → all_bytes is_run_byte (c ∷ []) ≡ true
unfolding all_bytes
one_byte c h = ground (arith, h)

longer-RunOk : (c : ℕ) (run : Option Str) → is_run_byte c ≡ true → RunOk run → RunOk (longer c run)
unfolding longer RunOk
longer-RunOk c none m h = tt
longer-RunOk c (some t) m h = all_bytes-append is_run_byte t (c ∷ []) h (one_byte c m)

begun-RunOk : (c : ℕ) (run : Option Str) → is_run_byte c ≡ true → RunOk run → RunOk (begun c run)
unfolding begun RunOk
begun-RunOk c none m h = one_byte c m
begun-RunOk c (some t) m h = all_bytes-append is_run_byte t (c ∷ []) h (one_byte c m)

longer-none : (c : ℕ) (run : Option Str) → run ≡ none → longer c run ≡ none
unfolding longer
longer-none c run z = rw z refl

module _ (least c : ℕ) (w : Walk) (h : WalkOk least w) where
  -- Without a run a byte is passed over.
  passed-WalkOk :
      (inside : Bool) → w.run ≡ none → WalkOk least (record (keep_byte c w) { in_class = inside })
  unfolding keep_byte RunOk
  passed-WalkOk inside z = record {
    tokens_ok = h.tokens_ok;
    run_ok = rw (longer-none c w.run z) tt;
    class_ok = λ e. longer-none c w.run z;
  }

  keep_byte-WalkOk :
      (esc : Bool) → is_run_byte c ≡ true → WalkOk least (record (keep_byte c w) { escaped = esc })
  unfolding keep_byte
  keep_byte-WalkOk esc m = record {
    tokens_ok = h.tokens_ok;
    run_ok = longer-RunOk c w.run m h.run_ok;
    class_ok = λ e. longer-none c w.run (h.class_ok e);
  }

  begin_run-WalkOk : is_run_byte c ≡ true → w.in_class ≡ false → WalkOk least (begin_run c w)
  unfolding begin_run
  begin_run-WalkOk m o = record {
    tokens_ok = h.tokens_ok;
    run_ok = begun-RunOk c w.run m h.run_ok;
    class_ok = λ e. absurd (ground (arith, e, o));
  }

dash : (c : ℕ) → (c == b'-') ≡ true → is_run_byte c ≡ true
unfolding is_run_byte is_token_char
dash c h = ground (arith, h)

walk_byte-WalkOk : (least c : ℕ) (w : Walk) → WalkOk least w → WalkOk least (walk_byte least c w)
unfolding walk_byte is_run_byte end_run keep_byte begin_run
walk_byte-WalkOk least c w h =
    if-holds P w.escaped _ _ (λ e. ended least w.in_class false (omega arith))
      λ e.
        if-holds P (c == b'\\') _ _ (λ e. keep_byte-WalkOk least c w h true (ground (arith, e)))
          λ e.
            if-holds P (c == b'[') _ _ (λ e. ended 4 true w.escaped (omega arith))
              λ e.
                if-holds P (c == b']' && w.in_class) _ _
                  (λ e. passed-WalkOk least c w h false (h.class_ok (ground (arith, e))))
                  λ e.
                    if-holds P w.in_class _ _
                      (λ e. passed-WalkOk least c w h w.in_class (h.class_ok e))
                      λ o.
                        if-holds P (is_meta c) _ _
                          (λ e. ended least w.in_class w.escaped (omega arith))
                          λ e.
                            if-holds P (is_token_char c) _ _
                              (λ e. begin_run-WalkOk least c w h (ground (arith, e)) o)
                              λ e.
                                if-holds P (c == b'-' && is_running w) _ _
                                  (λ e.
                                    keep_byte-WalkOk least c w h w.escaped
                                      (dash c (ground (arith, e))))
                                  (λ e. ended least w.in_class w.escaped (omega arith))
  where
    P : Walk → Type 0
    P = WalkOk least

    ended :
        (n : ℕ) (inside esc : Bool)
        → min least 4 ≤ n
        → WalkOk least (record (end_run n w) { in_class = inside; escaped = esc })
    ended n inside esc m = end_run-WalkOk least n w inside esc m h.tokens_ok h.run_ok

pub walk-WalkOk : (least : ℕ) (s : Str) (w : Walk) → WalkOk least w → WalkOk least (walk least s w)
unfolding walk
walk-WalkOk least [] w h = h
walk-WalkOk least (c ∷ s) w h = walk-WalkOk least s _ (walk_byte-WalkOk least c w h)
