-- ===== src/Scanner/Evaluate/LongLines.antt =====
-- `evaluateLongLine` of internal/scanner/evaluate.go: a line longer than the buffer is evaluated in
-- chunks that overlap.
use promptshield_beta.Base.{
  ℕ, List, ◌≡◌, min, [], Bool, ◌<◌, false, ◌+◌, ◌≤◌, suc, ◌∷◌, if◌then◌else◌, length, leb, true,
  ltb, ◌&&◌, arith, ◌||◌, dec_lt, zero,
}
use promptshield_beta.Scanner.Evaluate.{Scanner, State}
use promptshield_beta.Base.Text.{Str}
use promptshield_beta.Base.Int.{ℤ, pos_part}
use promptshield_beta.Scanner.Evaluate.Regexes.{evaluate_line, slice}

-- `end`, as it is after the guards.
unfoldable pub chunk_end : ℕ → ℕ → ℕ → ℕ → ℕ
chunk_end step overlap len start =
    let end = min (start + step) len in
    if ltb end len && leb (end + overlap) len then end + overlap else end

-- The chunks of the loop from `start` on. A round moves the start by the buffer's size, so where
-- that is positive as many rounds as there are bytes left are enough.
unfoldable pub chunks : ℕ → ℕ → ℕ → ℕ → ℕ → List (ℕ × ℕ)
unfolding chunk_end
chunks zero step overlap len start = []
chunks (suc fuel) step overlap len start =
    let rest = chunks fuel step overlap len (start + step) in
    if ltb start len then (start, chunk_end step overlap len start) ∷ rest else []

unfoldable pub eval_chunks : Scanner → Str → ℕ → List (ℕ × ℕ) → State → State
eval_chunks s text line [] st = st
eval_chunks s text line ((from, to) ∷ cs) st =
    eval_chunks s text line cs (evaluate_line s (slice text from to) line st).0

-- Each call starts with no key seen.
unfoldable pub evaluate_long_line : Scanner → Str → ℕ → ℤ → State → State
unfolding chunks eval_chunks
evaluate_long_line s text line overlap st =
    let start = record st { seen = [] } in
    let len = length text in
    if leb len s.buffer_size
    then (evaluate_line s text line start).0
    else eval_chunks s text line (chunks len s.buffer_size (pos_part overlap) len 0) start

-- The n bytes from i on lie in one of the chunks.
unfoldable pub is_covered : List (ℕ × ℕ) → ℕ → ℕ → Bool
is_covered [] i n = false
is_covered ((from, to) ∷ cs) i n = leb from i && leb (i + n) to || is_covered cs i n

covered_from :
    (fuel step overlap len start i n : ℕ)
    → 0 < step
    → start ≤ i
    → n ≤ overlap + 1
    → i + step + overlap ≤ len
    → len ≤ start + fuel
    → is_covered (chunks fuel step overlap len start) i n ≡ true
unfolding chunks is_covered chunk_end
covered_from zero step overlap len start i n p a b c d = absurd (omega (arith, p, a, c, d))
covered_from (suc fuel) step overlap len start i n p a b c d = elim (dec_lt i (start + step)) [
  | yes h ↦ ground (arith, p, a, b, c, d, h)
  | no h ↦ ground (
    arith,
    p,
    a,
    c,
    covered_from fuel step overlap len (start + step) i n p (omega (arith, h)) b c
        (omega (arith, p, d)),
  )
]

-- With a buffer that is not empty, every stretch of a long line that is at most one byte longer
-- than the overlap lies in a chunk, if it begins at least a buffer and an overlap before the end of
-- the line. Nearer to the end the code leaves the overlap out.
pub chunks-covered :
    (step overlap len i n : ℕ)
    → 0 < step
    → n ≤ overlap + 1
    → i + step + overlap ≤ len
    → is_covered (chunks len step overlap len 0) i n ≡ true
chunks-covered step overlap len i n p b c =
    covered_from len step overlap len 0 i n p (omega arith) b c (omega arith)
