-- ===== src/Scanner/Input.antt =====
-- internal/scanner/io.go: how a text reaches the rules. `ScanReader` takes the tokens of a
-- `bufio.Scanner`, `scanChunked` the reads of a `bufio.Reader`, and `ScanFile` tries the first and
-- falls back on the second. Counters are of unbounded size, and durations and logs are left out.
pub mod Chunks
pub mod Files
pub mod Chunked
pub mod Bytes
pub mod Lines
pub mod Whole
pub mod Agree
pub mod FallBack
mod Tests
pub mod Reader
use promptshield_beta.Base.Int.{ℤ, pos, is_pos, pos_part}
use promptshield_beta.Base.Text.{Str, bytes}
use promptshield_beta.Base.{
  ℕ, Option, Bool, [], ◌++◌, ltb, if◌then◌else◌, List, ◌∷◌, max, ◌&&◌, some, ◌==◌, leb, none, suc,
  length, ◌+◌,
}
use promptshield_beta.Scanner.Evaluate.{State, Scanner, Violation}
use promptshield_beta.Scanner.Evaluate.Regexes.{evaluate_line}

-- The fields of the Scanner that bound its input.
pub record Config : Type 0 where
  pub max_stream_bytes : ℤ
  pub max_resident_memory_bytes : ℕ
  pub max_file_bytes : ℤ
  pub chunk_overlap_bytes : ℤ
  pub quarantine_on_error : Bool
  pub quarantine_on_timeout : Bool

-- What a reader ends with, other than io.EOF: `bufio.ErrTooLong`, or the error of a read.
pub data Failure : Type 0 where
  too_long : Failure
  broken : Str → Failure

pub data ScanError : Type 0 where
  cancelled : Str → ScanError
  memory_ceiling : ℕ → ScanError
  stream_limit_exceeded : ScanError
  scanning : Str → Failure → ScanError
  chunked_read : Str → Failure → ScanError
  opening : Str → Str → ScanError
  file_size_limit : Str → ℤ → ScanError
  invalid_file_size : Str → ScanError

-- types.ScanResult: its violations and the counters of the rules are in `eval`.
pub record Result : Type 0 where
  pub input : Str
  pub lines_read : ℕ
  pub bytes_read : ℕ
  pub eval : State

-- A result with no error, or an error with the empty result.
pub data Outcome : Type 0 where
  done : Result → Outcome
  failed : ScanError → Outcome

-- What a round of the loop finds: the error of the context when it is done, and `m.Sys`.
pub record Environment : Type 0 where
  pub ctx_err : ℕ → Option Str
  pub sys : ℕ → ℕ

unfoldable pub no_state : State
no_state = record {
  violations = [];
  seen = [];
  regex_attempts = 0;
  regex_skipped = 0;
  semantic_attempts = 0;
  semantic_skipped = 0;
}

-- A violation that stands for an error of the scan.
unfoldable pub synthetic : Str → Str → Violation
synthetic id message = record {
  rule_id = id;
  message = message;
  severity = bytes "HIGH";
  line = 0;
  column = 0;
  rule_timeout_ms = pos 0;
  category = [];
  response_action = [];
  response_message = [];
  response_replacement = [];
}

unfoldable pub quarantine : Str → Str → State → State
unfolding synthetic
quarantine id message st = record st { violations = st.violations ++ synthetic id message ∷ [] }

unfoldable pub failure_text : Failure → Str
failure_text too_long = bytes "bufio.Scanner: token too long"
failure_text (broken message) = message

-- The context and the memory ceiling, in that order.
unfoldable pub interrupted : Config → Environment → ℕ → Result → Option Outcome
unfolding quarantine
interrupted c env n r =
    let over = ltb 0 c.max_resident_memory_bytes && ltb c.max_resident_memory_bytes (env.sys n) in
    let stopped : ScanError → Bool → Str → Str → Outcome = λ e flag id message.
      if flag then done (record r { eval = quarantine id message r.eval }) else failed e in
    elim (env.ctx_err n) [
      | some e ↦
          some (
            stopped (cancelled e) c.quarantine_on_timeout (bytes "timeout")
              (bytes "scan timed out"))
      | none ↦
          if over
          then some (
              stopped (memory_ceiling (env.sys n)) c.quarantine_on_error (bytes "memory_limit")
                (bytes "memory ceiling exceeded"))
          else none
    ]

unfoldable pub is_over : Config → ℕ → Bool
is_over c n = is_pos c.max_stream_bytes && ltb (pos_part c.max_stream_bytes) n

unfoldable pub over_limit : Config → Result → Option Outcome
unfolding is_over quarantine
over_limit c r =
    if is_over c r.bytes_read
    then (if c.quarantine_on_error
        then some (
            done (record r {
              eval = quarantine (bytes "stream_limit") (bytes "stream byte limit exceeded") r.eval;
            }))
        else some (failed stream_limit_exceeded))
    else none

-- The keys seen are new for each line.
unfoldable pub on_line : Scanner → Str → ℕ → State → State
on_line s text n st = (evaluate_line s text n (record st { seen = [] })).0

-- The loop of ScanReader at the tokens that are left, after n lines.
unfoldable pub reader_loop :
    Scanner → Config → Environment → Str → ℕ → List Str → Option Failure → Result → Outcome
unfolding failure_text
reader_loop s c env name n [] none r = done r
reader_loop s c env name n [] (some e) r =
    if c.quarantine_on_error
    then done (record r { eval = quarantine (bytes "scan_error") (failure_text e) r.eval })
    else failed (scanning name e)
reader_loop s c env name n (t ∷ ts) err r = elim (interrupted c env n r) [
  | some o ↦ o
  | none ↦
      let counted = record r {
        lines_read = suc r.lines_read;
        bytes_read = r.bytes_read + length t;
      } in
      elim (over_limit c counted) [
        | some o ↦ o
        | none ↦
            reader_loop s c env name (suc n) ts err
              (record counted { eval = on_line s t (suc n) r.eval })
      ]
]

-- One byte before the lines that end in a line feed and what is left after the last of them.
unfoldable pub put_byte : ℕ → List Str × Str → List Str × Str
put_byte b ([], rest) = if b == 10 then ([] ∷ [], rest) else ([], b ∷ rest)
put_byte b (l ∷ ls, rest) = if b == 10 then ([] ∷ l ∷ ls, rest) else ((b ∷ l) ∷ ls, rest)

unfoldable pub split_lines : Str → List Str × Str
unfolding put_byte
split_lines [] = ([], [])
split_lines (b ∷ s) = put_byte b (split_lines s)

-- A line without the carriage return at its end.
unfoldable pub drop_cr : Str → Str
drop_cr [] = []
drop_cr (b ∷ []) = if b == 13 then [] else b ∷ []
drop_cr (b ∷ d ∷ s) = b ∷ drop_cr (d ∷ s)

-- bufio.Scanner on lines with a buffer of `size` bytes: the tokens, and `scanner.Err()`. A line that
-- fills the buffer before its line feed ends the scan.
unfoldable pub tokens : ℕ → List Str → Str → Option Failure → List Str × Option Failure
unfolding drop_cr
tokens size [] [] err = ([], err)
tokens size [] (b ∷ rest) err =
    if leb size (length (b ∷ rest)) then ([], some too_long) else (drop_cr (b ∷ rest) ∷ [], err)
tokens size (l ∷ ls) rest err =
    let (ts, e) = tokens size ls rest err in
    if leb size (length l) then ([], some too_long) else (drop_cr l ∷ ts, e)

unfoldable pub empty_result : Str → Result
unfolding no_state
empty_result name = record { input = name; lines_read = 0; bytes_read = 0; eval = no_state }

-- The buffer that is given has room for 64 KiB, also where the limit is lower.
unfoldable pub scan_reader : Scanner → Config → Environment → Str → Str → Option Failure → Outcome
unfolding reader_loop split_lines tokens empty_result
scan_reader s c env name text err =
    let (ls, rest) = split_lines text in
    let (ts, e) = tokens (max 65536 s.buffer_size) ls rest err in
    reader_loop s c env name 0 ts e (empty_result name)
