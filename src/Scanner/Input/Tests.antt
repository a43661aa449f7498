-- ===== src/Scanner/Input/Tests.antt =====
-- The two readers at concrete texts.
use promptshield_beta.Scanner.Input.{
  Config, Environment, done, split_lines, over_limit, scan_reader, drop_cr, Result, interrupted,
  empty_result, tokens, is_over, too_long,
}
use promptshield_beta.Base.Text.{Str, bytes}
use promptshield_beta.Scanner.Input.Chunks.{
  scan_chunked, feed, with_bytes, with_line, finish, byte_index,
}
use promptshield_beta.Base.{
  ℕ, length, none, ◌++◌, false, ◌∷◌, ◌≤◌, [], ◌≡◌, refl, replicate, true, suc, zero, some, arith,
  leb, max, length-replicate,
}
use promptshield_beta.Base.Int.{pos}
use promptshield_beta.Scanner.Tests.{two_rules}
use promptshield_beta.Scanner.Input.Bytes.{uncancelled, all_lines, joined}
use promptshield_beta.Scanner.Input.Whole.{chunked_result, scan_chunked-all_lines}
use promptshield_beta.Scanner.Input.Reader.{after_tokens, tokens_of, scan_reader_complete}
use promptshield_beta.Scanner.Input.Files.{File, scan_file, fall_back}
use promptshield_beta.Scanner.Input.Agree.{Fit, scan_reader-scan_chunked}
use promptshield_beta.Scanner.Input.FallBack.{scan_file-too_long, fall_back-quarantine}
use promptshield_beta.Scanner.Input.Lines.{split_lines-plain}

abbrev open_config : Config
open_config = record {
  max_stream_bytes = pos 0;
  max_resident_memory_bytes = 0;
  max_file_bytes = pos 0;
  chunk_overlap_bytes = pos 0;
  quarantine_on_error = false;
  quarantine_on_timeout = false;
}

abbrev quiet : Environment
quiet = record { ctx_err = λ n. none; sys = λ n. 0 }

-- A line feed stands for 10: "foo", "ba" and "r".
abbrev first_read : Str
first_read = bytes "foo" ++ 10 ∷ bytes "ba"

abbrev second_read : Str
second_read = bytes "r"

-- Seven bytes in two reads are counted as nine.
nine_counted :
    scan_chunked two_rules open_config (bytes "x") (uncancelled (first_read ∷ [])) (10 ∷ [], none)
    ≡ done (chunked_result two_rules open_config (bytes "x") (first_read ++ 10 ∷ []) 9)
unfolding scan_chunked feed with_bytes with_line finish chunked_result byte_index all_lines
    split_lines over_limit
nine_counted = refl

scan_chunked-all_lines_example :
    (n : ℕ) × (scan_chunked two_rules open_config
        (bytes "x")
        (uncancelled (first_read ∷ []))
        (second_read, none)
      ≡ done (chunked_result two_rules open_config (bytes "x") (first_read ++ second_read) n))
    × (7 ≤ n)
    × (n ≤ 14)
scan_chunked-all_lines_example =
    scan_chunked-all_lines two_rules open_config (bytes "x") (first_read ∷ []) second_read refl

text_scanned :
    scan_reader two_rules open_config quiet (bytes "x") (first_read ++ second_read) none
    ≡ done (after_tokens two_rules (bytes "foo" ∷ bytes "bar" ∷ []) 0 (empty_result (bytes "x")))
unfolding scan_reader interrupted over_limit after_tokens
text_scanned = refl

scan_reader_complete_example :
    let r = after_tokens two_rules (bytes "foo" ∷ bytes "bar" ∷ []) 0 (empty_result (bytes "x")) in
    ((tokens_of two_rules (first_read ++ second_read) none).1 ≡ none)
    × (r
        ≡ after_tokens two_rules
            (tokens_of two_rules (first_read ++ second_read) none).0
            0
            (empty_result (bytes "x")))
    × (is_over open_config r.bytes_read ≡ false)
scan_reader_complete_example =
    scan_reader_complete two_rules open_config quiet (bytes "x") (first_read ++ second_read) none
      (after_tokens two_rules (bytes "foo" ∷ bytes "bar" ∷ []) 0 (empty_result (bytes "x"))) refl
      refl text_scanned

lines-Fit : Fit 4096 (all_lines (joined (first_read ∷ []) second_read))
unfolding all_lines split_lines drop_cr
lines-Fit = (omega arith, refl, (omega arith, refl, tt))

scan_reader-scan_chunked_example :
    (r : Result) × (r' : Result) × (scan_reader two_rules open_config quiet
        (bytes "x")
        (first_read ++ second_read)
        none
      ≡ done r)
    × (scan_chunked two_rules open_config
          (bytes "x")
          (uncancelled (first_read ∷ []))
          (second_read, none)
        ≡ done r')
    × (r.eval ≡ r'.eval)
    × (r.lines_read ≡ r'.lines_read)
scan_reader-scan_chunked_example =
    scan_reader-scan_chunked two_rules open_config quiet (bytes "x") (first_read ∷ []) second_read
      ((λ n. refl), refl) refl lines-Fit

-- A line that fills the buffer.
abbrev x_line : ℕ → Str
x_line n = replicate n b'x'

x_line-none : (n : ℕ) → byte_index 10 (x_line n) ≡ none
unfolding byte_index
x_line-none zero = refl
x_line-none (suc n) = rw (x_line-none n) refl

x_line-too_long :
    (n : ℕ) → 65536 ≤ suc n → (tokens_of two_rules (x_line (suc n)) none).1 ≡ some too_long
unfolding tokens_of tokens
x_line-too_long n h =
    let e : leb (max 65536 4096) (length (x_line (suc n))) ≡ true =
      ground (arith, h, length-replicate {A = ℕ} n b'x') in
    rw (split_lines-plain (x_line (suc n)) (x_line-none (suc n)), e) refl

abbrev long_file : ℕ → File
long_file n = record {
  ctx_err = none;
  info = none;
  open_err = none;
  env = quiet;
  text = x_line (suc n);
  read_err = none;
  seek_err = none;
  reads = [];
  last = (x_line (suc n), none);
}

scan_file-too_long_example :
    (n : ℕ) × (scan_file two_rules open_config (bytes "x") (long_file 65535)
      ≡ done (chunked_result two_rules open_config (bytes "x") (x_line 65536) n))
scan_file-too_long_example =
    scan_file-too_long two_rules open_config (bytes "x") (long_file 65535) [] (x_line 65536)
      (refl, (λ fi e. absurd (ground (arith, e))), refl, refl) ((λ n. refl), refl) refl refl
      (x_line-too_long 65535 (omega arith)) refl refl refl

abbrev closed_config : Config
closed_config = record open_config { quarantine_on_error = true; quarantine_on_timeout = true }

fall_back-quarantine_example :
    let f = long_file 3 in
    fall_back two_rules closed_config
      (bytes "x")
      f
      (scan_reader two_rules closed_config f.env (bytes "x") f.text f.read_err)
    ≡ scan_reader two_rules closed_config f.env (bytes "x") f.text f.read_err
fall_back-quarantine_example =
    fall_back-quarantine two_rules closed_config (bytes "x") (long_file 3) refl
      (λ k x e. absurd (ground (arith, e)))
