-- ===== src/Scanner/Input/Reader.antt =====
-- internal/scanner/io.go: `ScanReader` reads every token or says why not, and agrees with
-- `scanChunked` on short lines.
use promptshield_beta.Scanner.Evaluate.{Scanner, State}
use promptshield_beta.Base.{
  List, ℕ, ◌∷◌, ◌+◌, ◌≡◌, suc, length, false, none, ◌≢◌, [], some, Bool-cases, inl, inr, arith, ap₂,
  Option, ap, refl, sym, ◌∙◌, Option-cases, max,
}
use promptshield_beta.Scanner.Input.{
  interrupted, over_limit, Config, Environment, Result, on_line, is_over, done, Outcome,
  reader_loop, Failure, failed, split_lines, scan_reader, tokens, empty_result,
}
use promptshield_beta.Base.Text.{Str}

-- The reference: each token at its number.
unfoldable pub token_loop : Scanner → List Str → ℕ → State → State
token_loop s [] n st = st
token_loop s (t ∷ ts) n st = token_loop s ts (suc n) (on_line s t (suc n) st)

abbrev pub total : List Str → ℕ
total [] = 0
total (t ∷ ts) = length t + total ts

unfoldable pub after_tokens : Scanner → List Str → ℕ → Result → Result
unfolding token_loop
after_tokens s ts n r = record r {
  lines_read = r.lines_read + length ts;
  bytes_read = r.bytes_read + total ts;
  eval = token_loop s ts n r.eval;
}

-- Without quarantine an interruption is an error.
interrupted-error :
    (c : Config) (env : Environment) (n : ℕ) (r r' : Result)
    → c.quarantine_on_error ≡ false
    → c.quarantine_on_timeout ≡ false
    → interrupted c env n r ≢ some (done r')
unfolding interrupted
interrupted-error c env n r r' h h' e = ground (arith, h, h', e)

over_limit-error :
    (c : Config) (r r' : Result) → c.quarantine_on_error ≡ false → over_limit c r ≢ some (done r')
unfolding over_limit
over_limit-error c r r' h e = ground (arith, h, e)

over_limit-none : (c : Config) (r : Result) → over_limit c r ≡ none → is_over c r.bytes_read ≡ false
unfolding over_limit
over_limit-none c r e = elim (Bool-cases (is_over c r.bytes_read)) [
  | inl z ↦ ground (arith, z, e)
  | inr z ↦ z
]

pub after_tokens-nil : (s : Scanner) (n : ℕ) (r : Result) → after_tokens s [] n r ≡ r
unfolding after_tokens
after_tokens-nil s n r =
    ap₂ (λ (k m : ℕ). record r { lines_read = k; bytes_read = m }) (omega arith) (omega arith)

-- What the loop does to the result at one token.
unfoldable pub with_token : Scanner → Str → ℕ → Result → Result
with_token s t n r = record r {
  lines_read = suc r.lines_read;
  bytes_read = r.bytes_read + length t;
  eval = on_line s t (suc n) r.eval;
}

pub after_tokens-cons :
    (s : Scanner) (t : Str) (ts : List Str) (n : ℕ) (r : Result)
    → after_tokens s ts (suc n) (with_token s t n r) ≡ after_tokens s (t ∷ ts) n r
unfolding after_tokens with_token
after_tokens-cons s t ts n r =
    ap₂
      (λ (k m : ℕ). record r {
        lines_read = k;
        bytes_read = m;
        eval = token_loop s ts (suc n) (on_line s t (suc n) r.eval);
      })
      (omega arith) (omega arith)

abbrev pub counted : Str → Result → Result
counted t r = record r { lines_read = suc r.lines_read; bytes_read = r.bytes_read + length t }

-- One round of the loop.
module _ (s : Scanner) (c : Config) (env : Environment) (name : Str) (n : ℕ) (t : Str)
    (ts : List Str) (err : Option Failure) (r : Result) where
  pub reader_round-interrupted :
      (o : Outcome) → interrupted c env n r ≡ some o → reader_loop s c env name n (t ∷ ts) err r ≡ o
  unfolding reader_loop
  reader_round-interrupted o z = rw (reader_loop, z) refl

  pub reader_round-limit :
      (o : Outcome)
      → interrupted c env n r ≡ none
      → over_limit c (counted t r) ≡ some o
      → reader_loop s c env name n (t ∷ ts) err r ≡ o
  unfolding reader_loop
  reader_round-limit o z w = rw (reader_loop, z, w) refl

  pub reader_round-next :
      interrupted c env n r ≡ none
      → over_limit c (counted t r) ≡ none
      → reader_loop s c env name n (t ∷ ts) err r
        ≡ reader_loop s c env name (suc n) ts err (with_token s t n r)
  unfolding reader_loop with_token
  reader_round-next z w = rw (reader_loop, z, w) refl

-- The result of an outcome, and the other one of an error.
result_or : Result → Outcome → Result
result_or d (done r) = r
result_or d (failed e) = d

pub reader_loop_complete :
    (s : Scanner) (c : Config) (env : Environment) (name : Str) (n : ℕ) (ts : List Str)
    (err : Option Failure) (r r' : Result)
    → c.quarantine_on_error ≡ false
    → c.quarantine_on_timeout ≡ false
    → is_over c r.bytes_read ≡ false
    → reader_loop s c env name n ts err r ≡ done r'
    → (err ≡ none) × (r' ≡ after_tokens s ts n r) × (is_over c r'.bytes_read ≡ false)
unfolding reader_loop result_or with_token
reader_loop_complete s c env name n [] none r r' q q' m e =
    let same_r : r ≡ r' = ap (result_or r) e in
    (refl, sym same_r ∙ sym (after_tokens-nil s n r), rw (← same_r) m)
reader_loop_complete s c env name n [] (some f) r r' q q' m e = absurd (ground (arith, q, e))
reader_loop_complete s c env name n (t ∷ ts) err r r' q q' m e =
    elim (Option-cases (interrupted c env n r)) [
      | inr (o, z) ↦ absurd (
          interrupted-error c env n r r' q q'
            (z ∙ ap some (sym (reader_round-interrupted s c env name n t ts err r o z) ∙ e)))
      | inl z ↦ elim (Option-cases (over_limit c (counted t r))) [
        | inr (o, w) ↦ absurd (
            over_limit-error c (counted t r) r' q
              (w ∙ ap some (sym (reader_round-limit s c env name n t ts err r o z w) ∙ e)))
        | inl w ↦
            let (e1, e2, e3) =
              reader_loop_complete s c env name (suc n) ts err (with_token s t n r) r' q q'
                (over_limit-none c (counted t r) w)
                (sym (reader_round-next s c env name n t ts err r z w) ∙ e) in
            (e1, e2 ∙ after_tokens-cons s t ts n r, e3)
      ]
    ]

-- The tokens of a text and the error after them.
unfoldable pub tokens_of : Scanner → Str → Option Failure → List Str × Option Failure
tokens_of s text err =
    let (ls, rest) = split_lines text in tokens (max 65536 s.buffer_size) ls rest err

pub scan_reader-loop :
    (s : Scanner) (c : Config) (env : Environment) (name text : Str) (err : Option Failure)
    → scan_reader s c env name text err
      ≡ reader_loop s c env name 0
          (tokens_of s text err).0
          (tokens_of s text err).1
          (empty_result name)
unfolding scan_reader tokens_of
scan_reader-loop s c env name text err = refl

zero-is_over : (c : Config) → is_over c 0 ≡ false
unfolding is_over
zero-is_over c = ground arith

-- With both quarantine switches off, a result of ScanReader is the result of all tokens of the
-- text, each evaluated in order under its number, whatever the context and the memory did: the
-- reader ended without an error, LinesRead and BytesRead are the number of the tokens and their
-- total length, and that is within the stream limit.
pub scan_reader_complete :
    (s : Scanner) (c : Config) (env : Environment) (name text : Str) (err : Option Failure)
    (r : Result)
    → c.quarantine_on_error ≡ false
    → c.quarantine_on_timeout ≡ false
    → scan_reader s c env name text err ≡ done r
    → ((tokens_of s text err).1 ≡ none)
      × (r ≡ after_tokens s (tokens_of s text err).0 0 (empty_result name))
      × (is_over c r.bytes_read ≡ false)
unfolding scan_reader tokens_of empty_result
scan_reader_complete s c env name text err r q q' e =
    reader_loop_complete s c env name 0 (tokens_of s text err).0 (tokens_of s text err).1
      (empty_result name) r q q' (zero-is_over c) e
