-- ===== src/Scanner/Input/Whole.antt =====
-- internal/scanner/io.go: the result of `scanChunked` on a whole text.
use promptshield_beta.Scanner.Input.Chunks.{
  finish, result_of, Reading, overlap_size, scan_chunked, no_reading,
}
use promptshield_beta.Scanner.Input.Lines.{line_loop, flushed, byte_loop-LinesAs}
use promptshield_beta.Scanner.Evaluate.{Scanner, State}
use promptshield_beta.Scanner.Input.{Config, Result, done, no_state}
use promptshield_beta.Base.Text.{Str}
use promptshield_beta.Base.{
  ℕ, List, none, ◌≡◌, length, false, Bool-cases, ◌==◌, inl, ◌≤◌, inr, ◌*◌, refl, ◌∙◌, ap₂, arith,
}
use promptshield_beta.Base.Int.{is_pos}
use promptshield_beta.Scanner.Input.Bytes.{all_lines, uncancelled, joined, chunked_loop-finish}
use promptshield_beta.Scanner.Input.Chunked.{byte_index-empty}

finish-flushed :
    (s : Scanner) (c : Config) (name : Str) (r : Reading)
    → finish s c name none r
      ≡ done (record {
        input = name;
        lines_read = (flushed s c r.lines).lines_read;
        bytes_read = r.bytes_read;
        eval = (flushed s c r.lines).eval;
      })
unfolding finish flushed result_of
finish-flushed s c name r = elim (Bool-cases (length r.lines.line_buf == 0)) [
  | inl e ↦ rw e refl
  | inr e ↦ rw e refl
]

-- The result on a text of which n bytes are counted.
unfoldable pub chunked_result : Scanner → Config → Str → Str → ℕ → Result
unfolding line_loop
chunked_result s c name text n = record {
  input = name;
  lines_read = length (all_lines text);
  bytes_read = n;
  eval = line_loop s (overlap_size c) (all_lines text) 0 no_state;
}

module _ (s : Scanner) (c : Config) (name : Str) (texts : List Str) (last : Str)
    (h : is_pos c.max_stream_bytes ≡ false) where
  -- Where no stream limit is set and the context stays open, scanChunked on reads that end with
  -- io.EOF gives the result of the lines of the whole text, evaluated in order under their numbers:
  -- it does not depend on how the reads cut the text. BytesRead is at least the length of the text
  -- and at most twice that: the bytes of a line that more than one read brings are counted again.
  pub scan_chunked-all_lines :
      let text = joined texts last in
      (n : ℕ) × (scan_chunked s c name (uncancelled texts) (last, none)
        ≡ done (chunked_result s c name text n))
      × (length text ≤ n)
      × (n ≤ 2 * length text)
  unfolding scan_chunked no_reading chunked_result
  scan_chunked-all_lines =
      let (n, e, low, high) = chunked_loop-finish s c name h texts last no_reading in
      let (e1, e2) = byte_loop-LinesAs s c (joined texts last) no_reading.lines byte_index-empty in
      (
        n,
        e
            ∙ finish-flushed s c name _
            ∙ ap₂
                (λ (k : ℕ) (st : State).
                  done (record { input = name; lines_read = k; bytes_read = n; eval = st }))
                (omega (arith, e2)) e1,
        omega (arith, low),
        omega (arith, high),
      )
