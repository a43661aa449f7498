-- ===== src/Scanner/Evaluate/Keys.antt =====
-- The keys of internal/scanner/evaluate.go: the key of a hit tells the hit's index.
use promptshield_beta.Scanner.Evaluate.{CompiledRule}
use promptshield_beta.Scanner.Evaluate.Keywords.{keyword_key}
use promptshield_beta.Base.Decimal.{
  decimal, read-decimal, decimal-digits, AllDigits, is_digit, read_digits,
}
use promptshield_beta.Base.Text.{Str}
use promptshield_beta.Base.{
  [], ◌∷◌, ◌++◌, Option, none, some, ap, ◌∙◌, sym, ◌≡◌, if◌then◌else◌, arith, ℕ, ◌==◌, refl,
}

-- What follows the last bar.
last_part : Str → Option Str
last_part [] = none
last_part (c ∷ s) = elim (last_part s) [
  | some part ↦ some part
  | none ↦ if c == b'|' then some s else none
]

last_part-append : (s t d : Str) → last_part t ≡ some d → last_part (s ++ t) ≡ some d
unfolding last_part
last_part-append [] t d h = h
last_part-append (c ∷ s) t d h = ground (arith, last_part-append s t d h)

last_part-digits : (s : Str) → AllDigits s → last_part s ≡ none
unfolding last_part is_digit
last_part-digits [] a = refl
last_part-digits (c ∷ s) a = ground (arith, last_part-digits s a.1, a.0)

last_part-key :
    (cr : CompiledRule) (line : ℕ) (kw : Str) (idx : ℕ)
    → last_part (keyword_key cr line kw idx) ≡ some (decimal idx)
unfolding keyword_key
last_part-key cr line kw idx = last_part-append _ (b'|' ∷ decimal idx) (decimal idx) (last_bar idx)
  where
    last_bar : (n : ℕ) → last_part (b'|' ∷ decimal n) ≡ some (decimal n)
    last_bar n = unfold last_part in ground (arith, last_part-digits (decimal n) (decimal-digits n))

-- Hits with the same key are at the same index, whatever bars the keywords have.
pub keyword_key-index :
    (cr : CompiledRule) (line : ℕ) (kw kw' : Str) (idx idx' : ℕ)
    → keyword_key cr line kw idx ≡ keyword_key cr line kw' idx'
    → idx ≡ idx'
keyword_key-index cr line kw kw' idx idx' h =
    let parts : some (decimal idx) ≡ some (decimal idx') =
      sym (last_part-key cr line kw idx) ∙ ap last_part h ∙ last_part-key cr line kw' idx' in
    let same_text : decimal idx ≡ decimal idx' = ground (arith, parts) in
    let read : some idx ≡ some idx' =
      sym (read-decimal idx) ∙ ap (read_digits 0) same_text ∙ read-decimal idx' in
    ground (arith, read)
