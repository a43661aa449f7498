-- ===== src/Scanner/Input/Agree.antt =====
-- internal/scanner/io.go: on lines that fit the buffer the two readers of a text agree.
use promptshield_beta.Base.{
  ℕ, List, ◌≡◌, ◌∷◌, none, length, false, max, [], ◌<◌, leb, refl, arith, ap, sym, Option, suc,
  if-true, ◌∙◌,
}
use promptshield_beta.Scanner.Input.{
  Config, interrupted, reader_loop, tokens, Environment, Result, done, drop_cr, Failure, on_line,
  split_lines, scan_reader, empty_result, no_state,
}
use promptshield_beta.Scanner.Input.Lines.{line_loop}
use promptshield_beta.Scanner.Evaluate.{Scanner, State}
use promptshield_beta.Scanner.Input.Reader.{
  token_loop, after_tokens, after_tokens-nil, tokens_of, reader_round-next, scan_reader-loop,
  counted, with_token, after_tokens-cons,
}
use promptshield_beta.Base.Text.{Str}
use promptshield_beta.Base.Int.{ℤ, is_pos}
use promptshield_beta.Scanner.Input.Bytes.{close_lines, all_lines, joined, uncancelled}
use promptshield_beta.Scanner.Evaluate.LongLines.{evaluate_long_line}
use promptshield_beta.Scanner.Input.Whole.{chunked_result, scan_chunked-all_lines}
use promptshield_beta.Scanner.Input.Chunked.{no_limit}
use promptshield_beta.Scanner.Input.Chunks.{scan_chunked, overlap_size}

-- The lines fit the buffer, and no carriage return is dropped from them.
abbrev pub Fit : ℕ → List Str → Type 0
Fit size [] = Unit
Fit size (l ∷ ls) = (length l < size) × (drop_cr l ≡ l) × Fit size ls

-- The context stays open and there is no memory ceiling.
abbrev pub IsQuiet : Config → Environment → Type 0
IsQuiet c env = ((n : ℕ) → env.ctx_err n ≡ none) × (c.max_resident_memory_bytes ≡ 0)

pub quiet-interrupted :
    (c : Config) (env : Environment) (n : ℕ) (r : Result)
    → IsQuiet c env
    → interrupted c env n r ≡ none
unfolding interrupted
quiet-interrupted c env n r (q, m) = rw (interrupted, q n, m) refl

reader_loop-quiet :
    (s : Scanner) (c : Config) (env : Environment) (name : Str) (n : ℕ) (ts : List Str) (r : Result)
    → IsQuiet c env
    → is_pos c.max_stream_bytes ≡ false
    → reader_loop s c env name n ts none r ≡ done (after_tokens s ts n r)
unfolding reader_loop
reader_loop-quiet s c env name n [] r q h = ap done (sym (after_tokens-nil s n r))
reader_loop-quiet s c env name n (t ∷ ts) r q h =
    reader_round-next s c env name n t ts none r (quiet-interrupted c env n r q)
      (no_limit c (counted t r) h)
    ∙ reader_loop-quiet s c env name (suc n) ts (with_token s t n r) q h
    ∙ ap done (after_tokens-cons s t ts n r)

long_enough : (size n : ℕ) → n < size → leb (max 65536 size) n ≡ false
long_enough size n m = ground (arith, m)

tokens-cons :
    (size : ℕ) (l : Str) (ls : List Str) (rest : Str) (ts : List Str)
    → leb size (length l) ≡ false
    → drop_cr l ≡ l
    → tokens size ls rest none ≡ (ts, none)
    → tokens size (l ∷ ls) rest none ≡ (l ∷ ts, none)
unfolding tokens
tokens-cons size l ls rest ts f e ih =
    rw (f, e) (ap (λ (p : List Str × Option Failure). (l ∷ p.0, p.1)) ih)

-- A longer limit also fits.
tokens-Fit :
    (size : ℕ) (ls : List Str) (rest : Str)
    → Fit size (close_lines (ls, rest))
    → tokens (max 65536 size) ls rest none ≡ (close_lines (ls, rest), none)
unfolding tokens
tokens-Fit size [] [] h = refl
tokens-Fit size [] (b ∷ rest) (m, e, h) =
    let f : leb (max 65536 size) (length (b ∷ rest)) ≡ false = ground (arith, m) in rw (f, e) refl
tokens-Fit size (l ∷ ls) [] (m, e, h) =
    tokens-cons (max 65536 size) l ls [] _ (long_enough size (length l) m) e
      (tokens-Fit size ls [] h)
tokens-Fit size (l ∷ ls) (b ∷ rest) (m, e, h) =
    tokens-cons (max 65536 size) l ls (b ∷ rest) _ (long_enough size (length l) m) e
      (tokens-Fit size ls (b ∷ rest) h)

short_line :
    (s : Scanner) (overlap : ℤ) (l : Str) (n : ℕ) (st : State)
    → length l < s.buffer_size
    → evaluate_long_line s l n overlap st ≡ on_line s l n st
unfolding evaluate_long_line on_line
short_line s overlap l n st m = if-true {b = leb (length l) s.buffer_size} _ _ (ground (arith, m))

line_loop-Fit :
    (s : Scanner) (overlap : ℤ) (ls : List Str) (n : ℕ) (st : State)
    → Fit s.buffer_size ls
    → line_loop s overlap ls n st ≡ token_loop s ls n st
unfolding line_loop token_loop
line_loop-Fit s overlap [] n st h = refl
line_loop-Fit s overlap (l ∷ ls) n st (m, e, h) =
    rw (short_line s overlap l (suc n) st m)
      (line_loop-Fit s overlap ls (suc n) (on_line s l (suc n) st) h)

-- The lines of a text under the names that the two readers give them.
tokens_of-Fit :
    (s : Scanner) (text : Str)
    → Fit s.buffer_size (all_lines text)
    → tokens_of s text none ≡ (all_lines text, none)
unfolding tokens_of all_lines
tokens_of-Fit s text h = tokens-Fit s.buffer_size (split_lines text).0 (split_lines text).1 h

reader-all_lines :
    (s : Scanner) (c : Config) (env : Environment) (name text : Str)
    → IsQuiet c env
    → is_pos c.max_stream_bytes ≡ false
    → Fit s.buffer_size (all_lines text)
    → scan_reader s c env name text none
      ≡ done (after_tokens s (all_lines text) 0 (empty_result name))
reader-all_lines s c env name text q h f =
    scan_reader-loop s c env name text none
    ∙ ap (λ (p : List Str × Option Failure). reader_loop s c env name 0 p.0 p.1 (empty_result name))
        (tokens_of-Fit s text f)
    ∙ reader_loop-quiet s c env name 0 (all_lines text) (empty_result name) q h

-- Where every line is shorter than the buffer and keeps its last byte, no limit is set and nothing
-- interrupts the scan, ScanReader on the text and scanChunked on any reads that make it up both
-- give a result, with the same violations, counters of rules and LinesRead.
pub scan_reader-scan_chunked :
    (s : Scanner) (c : Config) (env : Environment) (name : Str) (texts : List Str) (last : Str)
    → IsQuiet c env
    → is_pos c.max_stream_bytes ≡ false
    → Fit s.buffer_size (all_lines (joined texts last))
    → (r : Result) × (r' : Result) × (scan_reader s c env name (joined texts last) none ≡ done r)
      × (scan_chunked s c name (uncancelled texts) (last, none) ≡ done r')
      × (r.eval ≡ r'.eval)
      × (r.lines_read ≡ r'.lines_read)
unfolding chunked_result after_tokens empty_result
scan_reader-scan_chunked s c env name texts last q h f =
    let text = joined texts last in
    let (n, e, low, high) = scan_chunked-all_lines s c name texts last h in
    (
      after_tokens s (all_lines text) 0 (empty_result name),
      chunked_result s c name text n,
      reader-all_lines s c env name text q h f,
      e,
      sym (line_loop-Fit s (overlap_size c) (all_lines text) 0 no_state f),
      omega arith,
    )
