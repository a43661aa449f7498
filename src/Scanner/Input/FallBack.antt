-- ===== src/Scanner/Input/FallBack.antt =====
-- internal/scanner/io.go: when `ScanFile` falls back on the second reader.
use promptshield_beta.Scanner.Input.{
  Outcome, reader_loop, ScanError, Config, failed, Environment, Failure, Result, cancelled, done,
  interrupted, over_limit, scan_reader, empty_result, scanning, too_long,
}
use promptshield_beta.Scanner.Evaluate.{Scanner}
use promptshield_beta.Base.{
  ◌≡◌, ℕ, List, Option, true, some, ◌∷◌, [], none, arith, sym, Option-cases, ◌≢◌, if-true, false,
  ◌∙◌, if-false, inr, ap, inl, refl, suc, ap₂,
}
use promptshield_beta.Base.Text.{Str}
use promptshield_beta.Scanner.Input.Files.{
  is_too_long, fall_back, File, FileInfo, scan_file, refused,
}
use promptshield_beta.Scanner.Input.Reader.{
  scan_reader-loop, reader_round-interrupted, counted, reader_round-limit, with_token,
  reader_round-next, tokens_of,
}
use promptshield_beta.Scanner.Input.Agree.{IsQuiet, quiet-interrupted}
use promptshield_beta.Base.Int.{is_pos}
use promptshield_beta.Scanner.Input.Chunks.{scan_chunked}
use promptshield_beta.Scanner.Input.Chunked.{no_limit}
use promptshield_beta.Scanner.Input.Bytes.{joined, uncancelled}
use promptshield_beta.Scanner.Input.Whole.{chunked_result, scan_chunked-all_lines}

-- The error of a context.
abbrev pub Cancels : Environment → ScanError → Type 0
Cancels env e = (k : ℕ) × (x : Str) × (env.ctx_err k ≡ some x) × (e ≡ cancelled x)

done-failed {ℓ} : {A : Type ℓ} (r : Result) (e : ScanError) → done r ≡ failed e → A
done-failed r e h = absurd (ground (arith, h))

failed-injective : (e e' : ScanError) → failed e ≡ failed e' → e ≡ e'
failed-injective e e' h = ground (arith, h)

interrupted-Cancels :
    (c : Config) (env : Environment) (n : ℕ) (r : Result) (e : ScanError)
    → c.quarantine_on_error ≡ true
    → interrupted c env n r ≡ some (failed e)
    → Cancels env e
unfolding interrupted
interrupted-Cancels c env n r e q h = elim (Option-cases (env.ctx_err n)) [
  | inr (x, z) ↦ (n, x, z, ground (arith, q, h, z))
  | inl z ↦ absurd (ground (arith, q, h, z))
]

pub over_limit-quarantine :
    (c : Config) (r : Result) (e : ScanError)
    → c.quarantine_on_error ≡ true
    → over_limit c r ≢ some (failed e)
unfolding over_limit
over_limit-quarantine c r e q h = ground (arith, q, h)

-- With the quarantine of errors on, the first reader fails only where the context is done.
reader_loop-Cancels :
    (s : Scanner) (c : Config) (env : Environment) (name : Str) (n : ℕ) (ts : List Str)
    (err : Option Failure) (r : Result) (e : ScanError)
    → c.quarantine_on_error ≡ true
    → reader_loop s c env name n ts err r ≡ failed e
    → Cancels env e
unfolding reader_loop
reader_loop-Cancels s c env name n [] none r e q h = done-failed r e h
reader_loop-Cancels s c env name n [] (some f) r e q h = done-failed _ e (sym (if-true _ _ q) ∙ h)
reader_loop-Cancels s c env name n (t ∷ ts) err r e q h =
    elim (Option-cases (interrupted c env n r)) [
      | inr (o, z) ↦
          interrupted-Cancels c env n r e q
            (z ∙ ap some (sym (reader_round-interrupted s c env name n t ts err r o z) ∙ h))
      | inl z ↦ elim (Option-cases (over_limit c (counted t r))) [
        | inr (o, w) ↦ absurd (
            over_limit-quarantine c (counted t r) e q
              (w ∙ ap some (sym (reader_round-limit s c env name n t ts err r o z w) ∙ h)))
        | inl w ↦
            reader_loop-Cancels s c env name (suc n) ts err (with_token s t n r) e q
              (sym (reader_round-next s c env name n t ts err r z w) ∙ h)
      ]
    ]

-- A done context is not taken for a line that is too long.
abbrev pub HasPlainErrors : Environment → Type 0
HasPlainErrors env = (k : ℕ) (x : Str) → env.ctx_err k ≡ some x → is_too_long (cancelled x) ≡ false

fall_back-first :
    (s : Scanner) (c : Config) (path : Str) (f : File) (o : Outcome)
    → ((e : ScanError) → o ≡ failed e → is_too_long e ≡ false)
    → fall_back s c path f o ≡ o
unfolding fall_back
fall_back-first s c path f (done r) h = refl
fall_back-first s c path f (failed e) h = if-false _ _ (h e refl)

-- With the quarantine of errors on, ScanFile never scans a file in chunks: where the context's
-- errors do not speak of tokens, what the first scan gives is the result, also for a line that is
-- too long.
pub fall_back-quarantine :
    (s : Scanner) (c : Config) (path : Str) (f : File)
    → c.quarantine_on_error ≡ true
    → HasPlainErrors f.env
    → fall_back s c path f (scan_reader s c f.env path f.text f.read_err)
      ≡ scan_reader s c f.env path f.text f.read_err
fall_back-quarantine s c path f q p =
    fall_back-first s c path f (scan_reader s c f.env path f.text f.read_err) λ e h.
      let (k, x, z, w) =
        reader_loop-Cancels s c f.env path 0 _ _ (empty_result path) e q
          (sym (scan_reader-loop s c f.env path f.text f.read_err) ∙ h) in
      rw w (p k x z)

reader_loop-error :
    (s : Scanner) (c : Config) (env : Environment) (name : Str) (n : ℕ) (ts : List Str)
    (x : Failure) (r : Result)
    → IsQuiet c env
    → is_pos c.max_stream_bytes ≡ false
    → c.quarantine_on_error ≡ false
    → reader_loop s c env name n ts (some x) r ≡ failed (scanning name x)
unfolding reader_loop
reader_loop-error s c env name n [] x r q h e = if-false _ _ e
reader_loop-error s c env name n (t ∷ ts) x r q h e =
    reader_round-next s c env name n t ts (some x) r (quiet-interrupted c env n r q)
      (no_limit c (counted t r) h)
    ∙ reader_loop-error s c env name (suc n) ts x (with_token s t n r) q h e

-- The guards of ScanFile let the file through.
abbrev pub Opens : Config → Str → File → Type 0
Opens c path f =
    (f.ctx_err ≡ none)
    × ((fi : FileInfo) → f.info ≡ some fi → refused c path fi ≡ none)
    × (f.open_err ≡ none)
    × (f.seek_err ≡ none)

scan_file-opened :
    (s : Scanner) (c : Config) (path : Str) (f : File)
    → Opens c path f
    → scan_file s c path f ≡ fall_back s c path f (scan_reader s c f.env path f.text f.read_err)
unfolding scan_file
scan_file-opened s c path f (x, g, o, k) = elim (Option-cases f.info) [
  | inl z ↦ rw (x, z, o) refl
  | inr (fi, z) ↦ rw (x, z, g fi z, o) refl
]

-- bufio.ErrTooLong starts the second scan.
long_fall_back :
    (s : Scanner) (c : Config) (path : Str) (f : File)
    → f.seek_err ≡ none
    → fall_back s c path f (failed (scanning path too_long)) ≡ scan_chunked s c path f.reads f.last
unfolding fall_back
long_fall_back s c path f k = rw k refl

-- A file that can be opened, whose text has a line too long for the buffer, is scanned whole, if
-- the quarantine of errors is off, no stream limit is set, nothing interrupts either scan, and the
-- reads of the second one make up the text: the result is that of all its lines.
pub scan_file-too_long :
    (s : Scanner) (c : Config) (path : Str) (f : File) (texts : List Str) (last : Str)
    → Opens c path f
    → IsQuiet c f.env
    → is_pos c.max_stream_bytes ≡ false
    → c.quarantine_on_error ≡ false
    → (tokens_of s f.text f.read_err).1 ≡ some too_long
    → f.text ≡ joined texts last
    → f.reads ≡ uncancelled texts
    → f.last ≡ (last, none)
    → (n : ℕ) × (scan_file s c path f ≡ done (chunked_result s c path f.text n))
scan_file-too_long s c path f texts last g q h e long t r l =
    let (n, whole, low, high) = scan_chunked-all_lines s c path texts last h in
    let failure : scan_reader s c f.env path f.text f.read_err ≡ failed (scanning path too_long) =
      scan_reader-loop s c f.env path f.text f.read_err
      ∙ ap
          (λ (x : Option Failure).
            reader_loop s c f.env path 0 (tokens_of s f.text f.read_err).0 x (empty_result path))
          long
      ∙ reader_loop-error s c f.env path 0 _ too_long (empty_result path) q h e in
    (
      n,
      scan_file-opened s c path f g
          ∙ ap (fall_back s c path f) failure
          ∙ long_fall_back s c path f (g.3)
          ∙ ap₂ (scan_chunked s c path) r l
          ∙ whole
          ∙ ap (λ (u : Str). done (chunked_result s c path u n)) (sym t),
    )
