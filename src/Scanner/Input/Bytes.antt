-- ===== src/Scanner/Input/Bytes.antt =====
-- internal/scanner/io.go: the whole of `scanChunked` on reads that the context and the limit leave
-- alone, and what it counts.
use promptshield_beta.Base.{
  List, ◌∷◌, Option, ◌++◌, none, ◌≡◌, [], false, ℕ, ◌+◌, length, ◌≤◌, ◌*◌, arith, length-append,
  refl,
}
use promptshield_beta.Scanner.Evaluate.{Scanner}
use promptshield_beta.Base.Text.{Str}
use promptshield_beta.Scanner.Input.{Config, split_lines}
use promptshield_beta.Base.Int.{is_pos}
use promptshield_beta.Scanner.Input.Chunks.{chunked_loop, Reading, finish}
use promptshield_beta.Scanner.Input.Chunked.{byte_loop, feed-FedAs, byte_loop-append}

-- The text that the reads make up.
abbrev pub joined : List Str → Str → Str
joined [] last = last
joined (t ∷ texts) last = t ++ joined texts last

abbrev pub uncancelled : List Str → List (Str × Option Str)
uncancelled [] = []
uncancelled (t ∷ texts) = (t, none) ∷ uncancelled texts

module _ (s : Scanner) (c : Config) (name : Str) (h : is_pos c.max_stream_bytes ≡ false) where
  pub chunked_loop-finish :
      (texts : List Str) (last : Str) (r : Reading)
      → (n : ℕ) × (chunked_loop s c name (uncancelled texts) (last, none) r
          ≡ finish s c name none
              (record { lines = byte_loop s c (joined texts last) r.lines; bytes_read = n }))
        × (r.bytes_read + length (joined texts last) ≤ n)
        × (n + length (byte_loop s c (joined texts last) r.lines).line_buf
            ≤ r.bytes_read + length r.lines.line_buf + 2 * length (joined texts last))
  unfolding chunked_loop
  chunked_loop-finish [] last r =
      let (n, e, low, high) = feed-FedAs s c name (length last) last r h (omega arith) in
      (n, rw (chunked_loop, e) refl, low, high)
  chunked_loop-finish (t ∷ texts) last r =
      let (n, e, low, high) = feed-FedAs s c name (length t) t r h (omega arith) in
      let r' : Reading = record { lines = byte_loop s c t r.lines; bytes_read = n } in
      let (m, e', low', high') = chunked_loop-finish texts last r' in
      let split = byte_loop-append s c t (joined texts last) r.lines in
      let len = length-append t (joined texts last) in
      (
        m,
        rw (chunked_loop, e, split) e',
        omega (arith, low, low', len),
        rw split (omega (arith, high, high', len)),
      )

-- The complete lines, and the rest if it is not empty.
abbrev pub close_lines : List Str × Str → List Str
close_lines (ls, []) = ls
close_lines (ls, b ∷ rest) = ls ++ (b ∷ rest) ∷ []

-- The lines of a text: those that end in a line feed, and the rest if it is not empty.
unfoldable pub all_lines : Str → List Str
all_lines text = close_lines (split_lines text)
