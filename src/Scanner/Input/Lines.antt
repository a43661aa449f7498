-- ===== src/Scanner/Input/Lines.antt =====
-- internal/scanner/io.go: the lines that `scanChunked` evaluates are the lines of the text.
use promptshield_beta.Scanner.Evaluate.{Scanner, State}
use promptshield_beta.Scanner.Input.{split_lines, Config, put_byte}
use promptshield_beta.Base.Text.{Str}
use promptshield_beta.Scanner.Input.Bytes.{all_lines, close_lines}
use promptshield_beta.Scanner.Input.Chunks.{byte_index, Lines, overlap_size, complete_line}
use promptshield_beta.Scanner.Input.Chunked.{
  byte_loop, byte_index-none, byte_step-feed, byte_step-other, byte_index-empty,
}
use promptshield_beta.Base.Int.{ℤ}
use promptshield_beta.Base.{
  ◌≡◌, List, ℕ, none, ◌∷◌, suc, [], ◌++◌, ◌==◌, if◌then◌else◌, false, length, refl, ◌+◌, Bool-cases,
  inl, inr, append-nil, arith, ap, ◌∙◌, ==_iff, append_assoc, subst,
}
use promptshield_beta.Scanner.Evaluate.LongLines.{evaluate_long_line}

-- The reference: each line at its number.
unfoldable pub line_loop : Scanner → ℤ → List Str → ℕ → State → State
line_loop s overlap [] n st = st
line_loop s overlap (l ∷ ls) n st =
    line_loop s overlap ls (suc n) (evaluate_long_line s l (suc n) overlap st)

-- A text with no line feed at its front.
pub split_lines-plain : (t : Str) → byte_index 10 t ≡ none → split_lines t ≡ ([], t)
unfolding split_lines
split_lines-plain [] h = refl
split_lines-plain (b ∷ t) h =
    let (e, z) = byte_index-none b t h in ap (put_byte b) (split_lines-plain t z) ∙ rw e refl

put_byte-feed : (p : List Str × Str) → put_byte 10 p ≡ ([] ∷ p.0, p.1)
unfolding put_byte
put_byte-feed ([], rest) = refl
put_byte-feed (l ∷ ls, rest) = refl

split_lines-cut :
    (t u : Str)
    → byte_index 10 t ≡ none
    → split_lines (t ++ 10 ∷ u) ≡ (t ∷ (split_lines u).0, (split_lines u).1)
unfolding split_lines
split_lines-cut [] u h = put_byte-feed (split_lines u)
split_lines-cut (b ∷ t) u h =
    let (e, z) = byte_index-none b t h in ap (put_byte b) (split_lines-cut t u z) ∙ rw e refl

close_lines-cons :
    (t : Str) (ls : List Str) (rest : Str) → close_lines (t ∷ ls, rest) ≡ t ∷ close_lines (ls, rest)
close_lines-cons t ls [] = refl
close_lines-cons t ls (b ∷ rest) = refl

all_lines-cut : (t u : Str) → byte_index 10 t ≡ none → all_lines (t ++ 10 ∷ u) ≡ t ∷ all_lines u
unfolding all_lines
all_lines-cut t u h =
    rw (split_lines-cut t u h) (close_lines-cons t (split_lines u).0 (split_lines u).1)

all_lines-nil : all_lines [] ≡ []
unfolding all_lines split_lines
all_lines-nil = refl

all_lines-plain :
    (b : ℕ) (t : Str) → byte_index 10 (b ∷ t) ≡ none → all_lines (b ∷ t) ≡ (b ∷ t) ∷ []
unfolding all_lines
all_lines-plain b t h = rw (split_lines-plain (b ∷ t) h) refl

byte_index-append :
    (t : Str) (b : ℕ)
    → byte_index 10 t ≡ none
    → (b == 10) ≡ false
    → byte_index 10 (t ++ b ∷ []) ≡ none
unfolding byte_index
byte_index-append [] b h e = rw e refl
byte_index-append (d ∷ t) b h e =
    let (e', z) = byte_index-none d t h in rw (byte_index-append t b z e, e') refl

-- The end of the text completes the line that is begun.
unfoldable pub flushed : Scanner → Config → Lines → Lines
flushed s c l = if length l.line_buf == 0 then l else complete_line s c [] l

-- The state after the lines, from the one before them.
abbrev pub LinesAs : Scanner → Config → List Str → Lines → Lines → Type 0
LinesAs s c ls l out =
    (out.eval ≡ line_loop s (overlap_size c) ls l.line_num l.eval)
    × (out.lines_read ≡ l.lines_read + length ls)

flushed-LinesAs :
    (s : Scanner) (c : Config) (buf : Str) (n k : ℕ) (st : State)
    → byte_index 10 buf ≡ none
    → let l : Lines = record { line_buf = buf; line_num = n; lines_read = k; eval = st } in
      LinesAs s c (all_lines (buf ++ [])) l (flushed s c l)
unfolding flushed line_loop complete_line
flushed-LinesAs s c [] n k st h = rw all_lines-nil (refl, omega arith)
flushed-LinesAs s c (b ∷ buf) n k st h =
    let e : (length (b ∷ buf) == 0) ≡ false = ground arith in
    rw (append-nil buf, all_lines-plain b buf h, e) (refl, omega arith)

-- A line feed completes the line, and the text after it goes on from there.
LinesAs-cons :
    (s : Scanner) (c : Config) (ls : List Str) (l out : Lines)
    → LinesAs s c ls (complete_line s c [] l) out
    → LinesAs s c (l.line_buf ∷ ls) l out
unfolding complete_line line_loop
LinesAs-cons s c ls l out (e, k) = (rw (← append-nil l.line_buf) e, omega (arith, k))

-- The buffer is empty after a line.
after_line : (s : Scanner) (c : Config) (l : Lines) → (complete_line s c [] l).line_buf ≡ []
unfolding complete_line
after_line s c l = refl

pub byte_loop-LinesAs :
    (s : Scanner) (c : Config) (text : Str) (l : Lines)
    → byte_index 10 l.line_buf ≡ none
    → LinesAs s c (all_lines (l.line_buf ++ text)) l (flushed s c (byte_loop s c text l))
unfolding byte_loop
byte_loop-LinesAs s c [] l h = flushed-LinesAs s c l.line_buf l.line_num l.lines_read l.eval h
byte_loop-LinesAs s c (b ∷ t) l h = elim (Bool-cases (b == 10)) [
  | inl e ↦
      let ten : b ≡ 10 = (==_iff b 10).0 e in
      let l' = complete_line s c [] l in
      let empty : byte_index 10 l'.line_buf ≡ none = rw (after_line s c l) byte_index-empty in
      rw (byte_step-feed s c b l e, ten, all_lines-cut l.line_buf t h)
        (LinesAs-cons s c (all_lines t) l (flushed s c (byte_loop s c t l')) (
          subst
            (λ (u : Str). LinesAs s c (all_lines (u ++ t)) l' (flushed s c (byte_loop s c t l')))
            (after_line s c l) (byte_loop-LinesAs s c t l' empty)))
  | inr e ↦
      rw (byte_step-other s c b l e, ← append_assoc l.line_buf (b ∷ []) t)
        (byte_loop-LinesAs s c t (record l { line_buf = l.line_buf ++ b ∷ [] })
          (byte_index-append l.line_buf b h e))
]
