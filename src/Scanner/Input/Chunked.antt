-- ===== src/Scanner/Input/Chunked.antt =====
-- internal/scanner/io.go: what `scanChunked` gives does not depend on how the reads cut the text.
use promptshield_beta.Scanner.Evaluate.{Scanner}
use promptshield_beta.Scanner.Input.Chunks.{
  byte_index, Lines, complete_line, Reading, feed, Fed, going, with_bytes, with_line, result_of,
}
use promptshield_beta.Scanner.Input.{Config, over_limit, is_over, Result}
use promptshield_beta.Base.{
  ℕ, if◌then◌else◌, ◌∷◌, ◌++◌, ◌==◌, ◌≡◌, false, none, some, [], suc, append-nil, drop, if-false,
  take, arith, true, ◌<◌, ◌∙◌, append_assoc, inl, ◌⊎◌, length, ap, Bool-cases, if-true, inr,
  Option-cases, refl, ◌≤◌, ◌+◌, ◌*◌, length-append, length-drop, zero, length-take, sym, subst,
}
use promptshield_beta.Base.Text.{Str}
use promptshield_beta.Base.Int.{is_pos}

-- The reference, a byte at a time.
unfoldable pub byte_step : Scanner → Config → ℕ → Lines → Lines
byte_step s c b l =
    if b == 10 then complete_line s c [] l else record l { line_buf = l.line_buf ++ b ∷ [] }

unfoldable pub byte_loop : Scanner → Config → Str → Lines → Lines
unfolding byte_step
byte_loop s c [] l = l
byte_loop s c (b ∷ text) l = byte_loop s c text (byte_step s c b l)

pub byte_loop-append :
    (s : Scanner) (c : Config) (t u : Str) (l : Lines)
    → byte_loop s c (t ++ u) l ≡ byte_loop s c u (byte_loop s c t l)
unfolding byte_loop
byte_loop-append s c [] u l = refl
byte_loop-append s c (b ∷ t) u l = byte_loop-append s c t u (byte_step s c b l)

-- Where the first line feed is.
pub byte_index-none :
    (b : ℕ) (t : Str)
    → byte_index 10 (b ∷ t) ≡ none
    → ((b == 10) ≡ false) × (byte_index 10 t ≡ none)
unfolding byte_index
byte_index-none b t h = ground (arith, h)

pub byte_index-some :
    (b : ℕ) (t : Str) (i : ℕ)
    → byte_index 10 (b ∷ t) ≡ some i
    → ((b == 10) ≡ true) × (i ≡ 0)
      ⊎ ((b == 10) ≡ false) × ((j : ℕ) × (i ≡ suc j) × (byte_index 10 t ≡ some j))
unfolding byte_index
byte_index-some b t i h = elim (Bool-cases (b == 10)) [
  | inl e ↦ inl (e, ground (arith, h, e))
  | inr e ↦ elim (Option-cases (byte_index 10 t)) [
    | inl z ↦ ground (arith, h, e, z)
    | inr (j, z) ↦ inr (e, (j, ground (arith, h, e, z), z))
  ]
]

-- There is none in the empty text.
pub byte_index-empty : byte_index 10 [] ≡ none
unfolding byte_index
byte_index-empty = refl

byte_index-nil {ℓ} : {A : Type ℓ} (i : ℕ) → byte_index 10 [] ≡ some i → A
unfolding byte_index
byte_index-nil i h = ground (arith, h)

pub byte_index-bound : (t : Str) (i : ℕ) → byte_index 10 t ≡ some i → i < length t
byte_index-bound [] i h = byte_index-nil i h
byte_index-bound (b ∷ t) i h = elim (byte_index-some b t i h) [
  | inl (e, z) ↦ omega (arith, z)
  | inr (e, (j, z, w)) ↦ omega (arith, z, byte_index-bound t j w)
]

-- Without a line feed the bytes are only kept.
pub byte_step-feed :
    (s : Scanner) (c : Config) (b : ℕ) (l : Lines)
    → (b == 10) ≡ true
    → byte_step s c b l ≡ complete_line s c [] l
unfolding byte_step
byte_step-feed s c b l e = if-true _ _ e

pub byte_step-other :
    (s : Scanner) (c : Config) (b : ℕ) (l : Lines)
    → (b == 10) ≡ false
    → byte_step s c b l ≡ record l { line_buf = l.line_buf ++ b ∷ [] }
unfolding byte_step
byte_step-other s c b l e = if-false _ _ e

pub byte_loop-none :
    (s : Scanner) (c : Config) (t : Str) (l : Lines)
    → byte_index 10 t ≡ none
    → byte_loop s c t l ≡ record l { line_buf = l.line_buf ++ t }
unfolding byte_loop
byte_loop-none s c [] l h = rw (append-nil l.line_buf) refl
byte_loop-none s c (b ∷ t) l h =
    let (e, z) = byte_index-none b t h in
    rw (byte_step-other s c b l e) (
      byte_loop-none s c t (record l { line_buf = l.line_buf ++ b ∷ [] }) z
      ∙ ap (λ (u : Str). record l { line_buf = u }) (append_assoc l.line_buf (b ∷ []) t))

-- The bytes before the first line feed complete the line.
pub complete_line-append :
    (s : Scanner) (c : Config) (t u : Str) (l : Lines)
    → complete_line s c u (record l { line_buf = l.line_buf ++ t }) ≡ complete_line s c (t ++ u) l
unfolding complete_line
complete_line-append s c t u l = rw (append_assoc l.line_buf t u) refl

pub byte_loop-some :
    (s : Scanner) (c : Config) (t : Str) (l : Lines) (i : ℕ)
    → byte_index 10 t ≡ some i
    → byte_loop s c t l ≡ byte_loop s c (drop (suc i) t) (complete_line s c (take i t) l)
unfolding byte_loop
byte_loop-some s c [] l i h = byte_index-nil i h
byte_loop-some s c (b ∷ t) l i h = elim (byte_index-some b t i h) [
  | inl (e, z) ↦ rw z (ap (byte_loop s c t) (if-true _ _ e))
  | inr (e, (j, z, w)) ↦ rw z (
      ap (byte_loop s c t) (byte_step-other s c b l e)
      ∙ byte_loop-some s c t (record l { line_buf = l.line_buf ++ b ∷ [] }) j w
      ∙ ap (byte_loop s c (drop (suc j) t)) (complete_line-append s c (b ∷ []) (take j t) l))
]

-- The state after a read that the limit does not end, with bounds on what is counted.
abbrev pub FedAs : Scanner → Config → Str → Reading → Fed → Type 0
FedAs s c text r out =
    (n : ℕ) × (out ≡ going (record { lines = byte_loop s c text r.lines; bytes_read = n }))
    × (r.bytes_read + length text ≤ n)
    × (n + length (byte_loop s c text r.lines).line_buf
        ≤ r.bytes_read + length r.lines.line_buf + 2 * length text)

pub no_limit : (c : Config) (r : Result) → is_pos c.max_stream_bytes ≡ false → over_limit c r ≡ none
unfolding over_limit is_over
no_limit c r h = rw h refl

-- One round of the inner loop.
module _ (s : Scanner) (c : Config) (name : Str) (fuel : ℕ) (b : ℕ) (t : Str) (r : Reading)
    (h : is_pos c.max_stream_bytes ≡ false) where
  feed-none :
      byte_index 10 (b ∷ t) ≡ none
      → feed s c name (suc fuel) (b ∷ t) r ≡ going (with_bytes (b ∷ t) r)
  unfolding feed
  feed-none z = rw (feed, z, no_limit c (result_of name (with_bytes (b ∷ t) r)) h) refl

  feed-some :
      (i : ℕ)
      → byte_index 10 (b ∷ t) ≡ some i
      → feed s c name (suc fuel) (b ∷ t) r
        ≡ feed s c name fuel (drop i t) (record (with_line (take i (b ∷ t)) r) {
          lines = complete_line s c (take i (b ∷ t)) r.lines;
        })
  unfolding feed
  feed-some i z = rw (feed, z, no_limit c (result_of name (with_line (take i (b ∷ t)) r)) h) refl

-- What the rest of the bytes give is carried over the line that the round completes.
FedAs-line :
    (s : Scanner) (c : Config) (b : ℕ) (t : Str) (r : Reading) (i : ℕ) (out : Fed)
    → byte_index 10 (b ∷ t) ≡ some i
    → FedAs s c
        (drop i t)
        (record (with_line (take i (b ∷ t)) r) {
          lines = complete_line s c (take i (b ∷ t)) r.lines;
        })
        out
    → FedAs s c (b ∷ t) r out
unfolding with_line complete_line
FedAs-line s c b t r i out z (n, eq, low, high) =
    let e = byte_loop-some s c (b ∷ t) r.lines i z in
    let k = byte_index-bound (b ∷ t) i z in
    let len = length-take i (b ∷ t) in
    let all = length-append r.lines.line_buf (take i (b ∷ t)) in
    (
      n,
      eq ∙ ap (λ (l : Lines). going (record { lines = l; bytes_read = n })) (sym e),
      omega (arith, low, k, len, all, length-drop i t),
      rw e (omega (arith, high, k, len, all, length-drop i t)),
    )

pub feed-FedAs :
    (s : Scanner) (c : Config) (name : Str) (fuel : ℕ) (text : Str) (r : Reading)
    → is_pos c.max_stream_bytes ≡ false
    → length text ≤ fuel
    → FedAs s c text r (feed s c name fuel text r)
unfolding feed byte_loop with_bytes
feed-FedAs s c name zero [] r h m = (r.bytes_read, refl, omega arith, omega arith)
feed-FedAs s c name zero (b ∷ t) r h m = absurd (omega (arith, m))
feed-FedAs s c name (suc fuel) [] r h m = (r.bytes_read, refl, omega arith, omega arith)
feed-FedAs s c name (suc fuel) (b ∷ t) r h m = elim (Option-cases (byte_index 10 (b ∷ t))) [
  | inl z ↦
      let e = byte_loop-none s c (b ∷ t) r.lines z in
      (
        r.bytes_read + length (b ∷ t),
        feed-none s c name fuel b t r h z
            ∙ ap
                (λ (l : Lines).
                  going (record { lines = l; bytes_read = r.bytes_read + suc (length t) }))
                (sym e),
        omega arith,
        rw e (omega (arith, length-append r.lines.line_buf (b ∷ t))),
      )
  | inr (i, z) ↦ subst (FedAs s c (b ∷ t) r) (sym (feed-some s c name fuel b t r h i z)) (
      FedAs-line s c b t r i _ z
        (feed-FedAs s c name fuel (drop i t) _ h (omega (arith, m, length-drop i t))))
]
