-- ===== src/Scanner/Verifiers/Iban.antt =====
-- `IBANValid` of internal/scanner/verifiers.go against the number that the text stands for.
use promptshield_beta.Base.{
  List, ℕ, ◌∷◌, Bool, if◌then◌else◌, leb, ◌<◌, ◌*◌, ◌&&◌, ◌≡◌, ◌+◌, ◌||◌, ◌-◌, true, [], ◌%◌, some,
  ap, ◌≤◌, if-true, arith, Bool-cases, ◌⊎◌, lt→ltb, false, inl, inr, ltb, ◌++◌, drop, take, refl,
  sym, take-append-drop, ◌∙◌, ◌↔◌, length,
}
use promptshield_beta.Scanner.Verifiers.{
  iban_loop, all_bytes, mod_chunk, utf8, itoa2, is_iban_rune, iban_valid, normalize,
}
use promptshield_beta.Base.Text.{Str}

-- The decimal number that the runes make, with 'A' to 'Z' as 10 to 35.
unfoldable pub iban_number : List ℕ → ℕ → ℕ
iban_number [] n = n
iban_number (r ∷ rs) n =
    iban_number rs (if leb b'A' r then n * 100 + (r - b'A' + 10) else n * 10 + (r - b'0'))

-- ASCII digits and capital letters.
unfoldable pub is_alnum : ℕ → Bool
is_alnum r = leb b'0' r && leb r b'9' || leb b'A' r && leb r b'Z'

chunk-digit :
    (r m n : ℕ)
    → b'0' ≤ r
    → r ≤ b'9'
    → m ≡ n % 97
    → mod_chunk (utf8 r) m ≡ (n * 10 + (r - b'0')) % 97
unfolding mod_chunk utf8
chunk-digit r m n lo hi e =
    rw (if-true _ _ (lt→ltb r 128 (omega (arith, hi)))) (omega (arith, lo, hi, e))

chunk-letter : (v m n : ℕ) → v ≤ 99 → m ≡ n % 97 → mod_chunk (itoa2 v) m ≡ (n * 100 + v) % 97
unfolding mod_chunk itoa2
chunk-letter v m n hi e = omega (arith, hi, e)

alnum-cases :
    (r : ℕ)
    → is_alnum r ≡ true
    → (leb b'A' r ≡ true × b'A' ≤ r × r ≤ b'Z') ⊎ (leb b'A' r ≡ false × b'0' ≤ r × r ≤ b'9')
unfolding is_alnum
alnum-cases r h = ground (arith, h)

unfoldable pub is_ascii : ℕ → Bool
is_ascii r = ltb r 128

module _ (is_digit : ℕ → Bool)
    (ascii : (r : ℕ) → r < 128 → is_digit r ≡ leb b'0' r && leb r b'9') where
  letter : (r : ℕ) → b'A' ≤ r → r ≤ b'Z' → is_digit r ≡ false
  letter r lo hi = ground (arith, ascii r, lo, hi)

  digit : (r : ℕ) → b'0' ≤ r → r ≤ b'9' → is_digit r ≡ true
  digit r lo hi = ground (arith, ascii r, lo, hi)

  letter_range : (r : ℕ) → b'A' ≤ r → r ≤ b'Z' → ltb r b'A' || ltb 35 (r - b'A' + 10) ≡ false
  letter_range r lo hi = ground (arith, lo, hi)

  iban_loop-number :
      (rs : List ℕ) (m n : ℕ)
      → all_bytes is_alnum rs ≡ true
      → m ≡ n % 97
      → iban_loop is_digit rs m ≡ some (iban_number rs n % 97)
  unfolding iban_loop iban_number all_bytes
  iban_loop-number [] m n h e = ap some e
  iban_loop-number (r ∷ rs) m n h e = elim (alnum-cases r (ground (arith, h))) [
    | inl (le, lo, hi) ↦
        rw (letter r lo hi, letter_range r lo hi, le, iban_loop)
          (iban_loop-number rs _ _ (ground (arith, h))
            (chunk-letter (r - b'A' + 10) m n (omega (arith, hi)) e))
    | inr (gt, lo, hi) ↦
        rw (digit r lo hi, gt, iban_loop)
          (iban_loop-number rs _ _ (ground (arith, h)) (chunk-digit r m n lo hi e))
  ]

  runes-alnum :
      (rs : List ℕ)
      → all_bytes is_ascii rs ≡ true
      → all_bytes (is_iban_rune is_digit) rs ≡ all_bytes is_alnum rs
  unfolding all_bytes is_iban_rune is_alnum is_ascii
  runes-alnum [] h = refl
  runes-alnum (r ∷ rs) h = ground (arith, runes-alnum rs, ascii r, h)

all_bytes-append :
    (p : ℕ → Bool) (s t : Str) → all_bytes p (s ++ t) ≡ all_bytes p s && all_bytes p t
unfolding all_bytes
all_bytes-append p [] t = refl
all_bytes-append p (c ∷ s) t = ground (arith, all_bytes-append p s t)

all_bytes-rotate :
    (p : ℕ → Bool) (n : ℕ) (s : Str)
    → all_bytes p s ≡ true
    → all_bytes p (drop n s ++ take n s) ≡ true
all_bytes-rotate p n s h = ground (
  arith,
  all_bytes-append p (drop n s) (take n s),
  sym (all_bytes-append p (take n s) (drop n s)) ∙ ap (all_bytes p) (take-append-drop n s) ∙ h,
)

-- `IBANValid` decides the check it documents, where the text without its separators is ASCII: its
-- length is from 15 to 34, its runes are digits and capital letters, and the number that it
-- stands for, its first four runes moved to the end and each letter as 10 to 35, is 1 modulo 97.
pub iban_valid_lem :
    (is_digit is_letter : ℕ → Bool) (to_upper : ℕ → ℕ)
    → ((r : ℕ) → r < 128 → is_digit r ≡ leb b'0' r && leb r b'9')
    → (s : Str)
    → let n = normalize is_letter to_upper s in
      all_bytes is_ascii n ≡ true
      → (iban_valid is_digit is_letter to_upper s ≡ true) ↔ (
          15 ≤ length n
          × length n ≤ 34
          × (all_bytes is_alnum n ≡ true)
          × (iban_number (drop 4 n ++ take 4 n) 0 % 97 ≡ 1))
unfolding iban_valid
iban_valid_lem is_digit is_letter to_upper ascii s h =
    elim (Bool-cases (all_bytes is_alnum (normalize is_letter to_upper s))) [
      | inl e ↦ ground (
        arith,
        e,
        runes-alnum is_digit ascii n h,
        iban_loop-number is_digit ascii (drop 4 n ++ take 4 n) 0 0 (all_bytes-rotate is_alnum 4 n e)
            refl,
      )
      | inr e ↦ ground (arith, e, runes-alnum is_digit ascii n h)
    ]
  where
    n : List ℕ
    n = normalize is_letter to_upper s
