-- ===== src/Scanner/Input/Chunks.antt =====
-- `scanChunked` of internal/scanner/io.go: lines are put together from reads that may end anywhere.
use promptshield_beta.Base.Text.{Str}
use promptshield_beta.Base.{
  ℕ, Option, [], List, suc, none, if◌then◌else◌, ◌++◌, ◌∷◌, ◌+◌, length, some, ◌==◌, take, drop,
  zero,
}
use promptshield_beta.Scanner.Input.{
  Config, no_state, Result, Failure, over_limit, chunked_read, Outcome, failed, done, cancelled,
}
use promptshield_beta.Scanner.Evaluate.LongLines.{evaluate_long_line}
use promptshield_beta.Scanner.Evaluate.{Scanner, State}
use promptshield_beta.Base.Int.{ℤ, is_pos, pos}

-- The line that is being put together, and what the complete lines gave.
pub record Lines : Type 0 where
  pub line_buf : Str
  pub line_num : ℕ
  pub lines_read : ℕ
  pub eval : State

pub record Reading : Type 0 where
  pub lines : Lines
  pub bytes_read : ℕ

pub data Fed : Type 0 where
  going : Reading → Fed
  stopped : Outcome → Fed

-- bytesIndexByte
unfoldable pub byte_index : ℕ → Str → Option ℕ
byte_index c [] = none
byte_index c (b ∷ s) =
    let later : Option ℕ = elim (byte_index c s) [ none ↦ none | some i ↦ some (suc i) ] in
    if b == c then some 0 else later

unfoldable pub result_of : Str → Reading → Result
result_of name r = record {
  input = name;
  lines_read = r.lines.lines_read;
  bytes_read = r.bytes_read;
  eval = r.lines.eval;
}

-- `overlapSz`
unfoldable pub overlap_size : Config → ℤ
overlap_size c = if is_pos c.chunk_overlap_bytes then c.chunk_overlap_bytes else pos 8192

-- The line is complete: its bytes come after those in the buffer, and the buffer is emptied.
unfoldable pub complete_line : Scanner → Config → Str → Lines → Lines
unfolding overlap_size
complete_line s c part l = record {
  line_buf = [];
  line_num = suc l.line_num;
  lines_read = suc l.lines_read;
  eval = evaluate_long_line s (l.line_buf ++ part) (suc l.line_num) (overlap_size c) l.eval;
}

-- The bytes have no line feed: they are counted, and added to the buffer.
unfoldable pub with_bytes : Str → Reading → Reading
with_bytes chunk r = record {
  lines = record r.lines { line_buf = r.lines.line_buf ++ chunk };
  bytes_read = r.bytes_read + length chunk;
}

-- A line is complete: the whole of it is counted, before it is evaluated.
unfoldable pub with_line : Str → Reading → Reading
with_line part r = record {
  lines = record r.lines { lines_read = suc r.lines.lines_read };
  bytes_read = r.bytes_read + (length (r.lines.line_buf ++ part) + 1);
}

-- The inner loop at the bytes that are left of a read. A round takes at least one byte, so that as
-- many rounds as there are bytes are enough.
unfoldable pub feed : Scanner → Config → Str → ℕ → Str → Reading → Fed
unfolding complete_line
feed s c name zero chunk r = going r
feed s c name (suc fuel) [] r = going r
feed s c name (suc fuel) (b ∷ rest) r = elim (byte_index 10 (b ∷ rest)) [
  | none ↦ elim (over_limit c (result_of name (with_bytes (b ∷ rest) r))) [
    | some o ↦ stopped o
    | none ↦ going (with_bytes (b ∷ rest) r)
  ]
  | some i ↦
      let part = take i (b ∷ rest) in
      elim (over_limit c (result_of name (with_line part r))) [
        | some o ↦ stopped o
        | none ↦
            feed s c name fuel (drop i rest)
              (record (with_line part r) { lines = complete_line s c part r.lines })
      ]
]

-- The read that fails or is at the end. A buffer that is not empty is the last line.
unfoldable pub finish : Scanner → Config → Str → Option Failure → Reading → Outcome
unfolding complete_line result_of
finish s c name (some e) r = failed (chunked_read name e)
finish s c name none r =
    if length r.lines.line_buf == 0
    then done (result_of name r)
    else done (result_of name (record r { lines = complete_line s c [] r.lines }))

-- The reads that succeed, each with the error of the context after it, and the last read, which
-- has an error or is at the end of the text.
unfoldable pub chunked_loop :
    Scanner → Config → Str → List (Str × Option Str) → Str × Option Failure → Reading → Outcome
unfolding feed finish
chunked_loop s c name [] (chunk, err) r = elim (feed s c name (length chunk) chunk r) [
  | stopped o ↦ o
  | going r ↦ finish s c name err r
]
chunked_loop s c name ((chunk, ctx) ∷ reads) last r = elim (feed s c name (length chunk) chunk r) [
  | stopped o ↦ o
  | going r ↦ elim ctx [ some e ↦ failed (cancelled e) | none ↦ chunked_loop s c name reads last r ]
]

unfoldable pub no_reading : Reading
unfolding no_state
no_reading = record {
  lines = record { line_buf = []; line_num = 0; lines_read = 0; eval = no_state };
  bytes_read = 0;
}

unfoldable pub scan_chunked :
    Scanner → Config → Str → List (Str × Option Str) → Str × Option Failure → Outcome
unfolding chunked_loop no_reading
scan_chunked s c name reads last = chunked_loop s c name reads last no_reading
