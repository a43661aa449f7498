-- ===== src/Scanner/Verifiers.antt =====
-- internal/scanner/verifiers.go: the checks that a rule's `verifier` names. A string is the list
-- of its runes; the tables of package unicode are arguments.
pub mod Luhn
pub mod Iban
pub mod Ssn
use promptshield_beta.Base.{
  Bool, List, ℕ, if◌then◌else◌, false, ◌==◌, ◌+◌, ◌∷◌, leb, true, not, Option, get_or, [], ◌||◌,
  drop, ltb, ◌/◌, ◌*◌, ◌&&◌, length, ◌-◌, some, ◌++◌, none, ◌%◌, take,
}
use promptshield_beta.Base.Text.{Str}
use promptshield_beta.Base.Decimal.{trim_space}

-- d, or 2d less 9 where that has two digits.
unfoldable pub luhn_term : Bool → ℕ → ℕ
luhn_term alt d = if alt then (if ltb 9 (d * 2) then d * 2 - 9 else d * 2) else d

-- The loop from the last digit to the first: `alt` and `sum` after it.
unfoldable pub luhn_loop : List ℕ → Bool × ℕ
luhn_loop [] = (false, 0)
luhn_loop (d ∷ ds) = let r = luhn_loop ds in (not r.0, r.1 + luhn_term r.0 d)

-- The tests on the nine digits.
unfoldable pub ssn_parts : List ℕ → Bool
ssn_parts d =
    let at = λ (i : ℕ). get_or d i 0 in
    let area = at 0 * 100 + at 1 * 10 + at 2 in
    let group = at 3 * 10 + at 4 in
    let serial = at 5 * 1000 + at 6 * 100 + at 7 * 10 + at 8 in
    if area == 0 || area == 666 || leb 900 area
    then false
    else not (group == 0) && not (serial == 0)

-- IBAN: spaces, tabs and dashes are dropped.
unfoldable pub is_separator : ℕ → Bool
is_separator r = r == b' ' || r == 9 || r == b'-'

-- string(r): UTF-8.
unfoldable pub utf8 : ℕ → List ℕ
utf8 r =
    if ltb r 128
    then r ∷ []
    else if ltb r 2048
    then (192 + r / 64) ∷ (128 + r % 64) ∷ []
    else if ltb r 65536
    then (224 + r / 4096) ∷ (128 + r / 64 % 64) ∷ (128 + r % 64) ∷ []
    else (240 + r / 262144) ∷ (128 + r / 4096 % 64) ∷ (128 + r / 64 % 64) ∷ (128 + r % 64) ∷ []

-- The decimal string of a number of two digits.
unfoldable pub itoa2 : ℕ → List ℕ
itoa2 v = (b'0' + v / 10) ∷ (b'0' + v % 10) ∷ []

-- The loop over the bytes of a chunk: `mod = (mod*10 + int(chunk[i]-'0')) % 97`.
unfoldable pub mod_chunk : List ℕ → ℕ → ℕ
mod_chunk [] m = m
mod_chunk (c ∷ cs) m = mod_chunk cs ((m * 10 + (c + 256 - b'0') % 256) % 97)

-- strings.Count of one byte.
unfoldable pub count : ℕ → Str → ℕ
count b [] = 0
count b (c ∷ s) = (if c == b then 1 else 0) + count b s

-- strings.Split on one byte.
unfoldable pub split : ℕ → Str → List Str
split b [] = [] ∷ []
split b (c ∷ s) = elim (split b s) [
  | [] ↦ []
  | part ∷ parts ↦ if c == b then [] ∷ part ∷ parts else (c ∷ part) ∷ parts
]

-- strings.SplitN on one byte with the limit 2: what is before the first one and what is after.
unfoldable pub split_first : ℕ → Str → Str × Str
split_first b [] = ([], [])
split_first b (c ∷ s) = let r = split_first b s in if c == b then ([], s) else (c ∷ r.0, r.1)

unfoldable pub is_label_byte : ℕ → Bool
is_label_byte c =
    leb b'A' c && leb c b'Z' || leb b'a' c && leb c b'z' || leb b'0' c && leb c b'9' || c == b'-'

unfoldable pub all_bytes : (ℕ → Bool) → List ℕ → Bool
all_bytes p [] = true
all_bytes p (c ∷ s) = p c && all_bytes p s

-- One round of the loop over the labels: no early return.
unfoldable pub label_valid : Str → Bool
label_valid lab =
    not (length lab == 0 || ltb 63 (length lab))
    && not (get_or lab 0 0 == b'-' || get_or lab (length lab - 1) 0 == b'-')
    && all_bytes is_label_byte lab

unfoldable pub labels_valid : List Str → Bool
labels_valid [] = true
labels_valid (lab ∷ labs) = label_valid lab && labels_valid labs

-- On ASCII text.
unfoldable pub email_valid : Str → Bool
email_valid text =
    let s = trim_space text in
    let parts = split_first b'@' s in
    let local = parts.0 in
    let domain = parts.1 in
    if length s == 0 || ltb 254 (length s)
    then false
    else if not (count b'@' s == 1)
    then false
    else if length local == 0 || ltb 64 (length local) || length domain == 0
    then false
    else if count b'.' domain == 0
    then false
    else labels_valid (split b'.' domain)

module _ (is_letter : ℕ → Bool) (to_upper : ℕ → ℕ) where
  unfoldable pub normalize : Str → Str
  normalize [] = []
  normalize (r ∷ s) =
      let rest = normalize s in
      if is_separator r then rest else (if is_letter r then to_upper r else r) ∷ rest

module _ (is_digit : ℕ → Bool) where
  -- The digits of a string, in order.
  unfoldable pub digits_of : Str → List ℕ
  digits_of [] = []
  digits_of (r ∷ s) = let rest = digits_of s in if is_digit r then (r - b'0') ∷ rest else rest

  unfoldable pub luhn_check : Str → Bool
  unfolding luhn_loop luhn_term digits_of
  luhn_check s =
      let digits = digits_of s in
      if ltb (length digits) 13 || ltb 19 (length digits)
      then false
      else (luhn_loop digits).1 % 10 == 0

  -- The loop over s up to the third digit: `n` and `area` after it.
  unfoldable pub area_loop : Str → ℕ → ℕ → ℕ × ℕ
  area_loop [] n area = (n, area)
  area_loop (r ∷ s) n area = elim (is_digit r) [
    | false ↦ area_loop s n area
    | true ↦
        let area' = area * 10 + (r - b'0') in
        elim (n + 1 == 3) [ true ↦ (n + 1, area') | false ↦ area_loop s (n + 1) area' ]
  ]

  unfoldable pub ssn_area_valid : Str → Bool
  unfolding area_loop
  ssn_area_valid s =
      let r = area_loop s 0 0 in
      if ltb r.0 3 then false else not (r.1 == 0 || r.1 == 666 || leb 900 r.1)

  -- The digits stored in `d`, or none where a tenth digit ends the function.
  unfoldable pub ssn_loop : Str → List ℕ → Option (List ℕ)
  ssn_loop [] d = some d
  ssn_loop (r ∷ s) d = elim (is_digit r) [
    | false ↦ ssn_loop s d
    | true ↦ elim (length d == 9) [ true ↦ none | false ↦ ssn_loop s (d ++ (r - b'0') ∷ []) ]
  ]

  unfoldable pub ssn_valid : Str → Bool
  unfolding ssn_loop ssn_parts
  ssn_valid s = elim (ssn_loop s []) [
    | none ↦ false
    | some d ↦ if length d == 9 then ssn_parts d else false
  ]

  unfoldable pub is_iban_rune : ℕ → Bool
  is_iban_rune r = is_digit r || leb b'A' r && leb r b'Z'

  unfoldable pub iban_loop : List ℕ → ℕ → Option ℕ
  unfolding mod_chunk utf8 itoa2
  iban_loop [] m = some m
  iban_loop (r ∷ rs) m =
      let v = r - b'A' + 10 in
      elim (is_digit r) [
        | true ↦ iban_loop rs (mod_chunk (utf8 r) m)
        | false ↦ elim (ltb r b'A' || ltb 35 v) [
          | true ↦ none
          | false ↦ iban_loop rs (mod_chunk (itoa2 v) m)
        ]
      ]

  unfoldable pub iban_valid : (ℕ → Bool) → (ℕ → ℕ) → Str → Bool
  unfolding iban_loop normalize is_iban_rune is_separator
  iban_valid is_letter to_upper s =
      let n = normalize is_letter to_upper s in
      let result = iban_loop (drop 4 n ++ take 4 n) 0 in
      if ltb (length n) 15 || ltb 34 (length n)
      then false
      else if not (all_bytes is_iban_rune n)
      then false
      else if ltb (length n) 4
      then false
      else elim result [ none ↦ false | some m ↦ m == 1 ]
