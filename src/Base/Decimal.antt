-- ===== src/Base/Decimal.antt =====
-- Decimal text: `strconv.Itoa` and fmt's `%d` on numbers that are not negative, `strconv.Atoi`,
-- and `strings.TrimSpace`, on ASCII text.
use Prim.Native.Nat.{ℕ, zero, suc, ◌+◌, ◌*◌, ◌-◌, ◌/◌, ◌%◌, ◌≤◌, ◌<◌}
use mathlib.Core.Path.{◌≡◌, refl}
use mathlib.Core.Bool.{Bool, true, ◌&&◌, ◌||◌}
use mathlib.Core.Option.{Option, none, some}
use mathlib.Core.List.{[], ◌∷◌, ◌++◌}
use native.Mathlib.Omega.{arith}
use promptshield_beta.Base.Tests.{ltb, leb, ◌==◌, if◌then◌else◌}
use promptshield_beta.Base.Int.{ℤ, pos, sub_ℕ, max_int64}
use promptshield_beta.Base.Text.{Str}
use promptshield_beta.Base.{Bool-cases, ◌≢◌, inl, ltb→lt, inr}

unfoldable pub is_space : ℕ → Bool
is_space c = c == b' ' || leb 9 c && leb c 13

unfoldable pub trim_left : Str → Str
trim_left [] = []
trim_left (c ∷ s) = let rest = trim_left s in if is_space c then rest else c ∷ s

unfoldable pub trim_right : Str → Str
trim_right [] = []
trim_right (c ∷ s) = elim (trim_right s) [
  | [] ↦ if is_space c then [] else c ∷ []
  | d ∷ t ↦ c ∷ d ∷ t
]

unfoldable pub trim_space : Str → Str
unfolding trim_left trim_right is_space
trim_space s = trim_right (trim_left s)

unfoldable pub is_digit : ℕ → Bool
is_digit c = leb b'0' c && leb c b'9'

unfoldable pub decimal_fuel : ℕ → ℕ → Str
decimal_fuel zero n = []
decimal_fuel (suc f) n =
    let rest = decimal_fuel f (n / 10) ++ (b'0' + n % 10) ∷ [] in
    if ltb n 10 then (b'0' + n) ∷ [] else rest

-- As many rounds as the number says are more than it has digits.
unfoldable pub decimal : ℕ → Str
unfolding decimal_fuel
decimal n = decimal_fuel (suc n) n

-- The digits read so far make `acc`.
unfoldable pub read_digits : ℕ → Str → Option ℕ
read_digits acc [] = some acc
read_digits acc (c ∷ s) =
    let rest = read_digits (acc * 10 + (c - b'0')) s in if is_digit c then rest else none

-- A number of at least one digit.
unfoldable pub read_number : Str → Option ℕ
unfolding read_digits is_digit
read_number [] = none
read_number (c ∷ s) = read_digits 0 (c ∷ s)

-- A value beyond the range of `int` is an error.
unfoldable pub in_range : ℕ → Option ℕ → Option ℕ
in_range most none = none
in_range most (some n) = if leb n most then some n else none

unfoldable pub atoi : Str → Option ℤ
unfolding read_number in_range
atoi [] = none
atoi (c ∷ s) =
    if c == b'-'
    then elim (in_range (suc max_int64) (read_number s)) [ none ↦ none | some n ↦ some (sub_ℕ 0 n) ]
    else if c == b'+'
    then elim (in_range max_int64 (read_number s)) [ none ↦ none | some n ↦ some (pos n) ]
    else elim (in_range max_int64 (read_number (c ∷ s))) [ none ↦ none | some n ↦ some (pos n) ]

read_digits-append :
    (a n d : ℕ) (s : Str)
    → d < 10
    → read_digits a s ≡ some n
    → read_digits a (s ++ (b'0' + d) ∷ []) ≡ some (n * 10 + d)
unfolding read_digits is_digit
read_digits-append a n d [] h e = ground arith
read_digits-append a n d (c ∷ s) h e =
    ground (arith, read_digits-append (a * 10 + (c - b'0')) n d s h)

read-decimal_fuel : (f n : ℕ) → n < f → read_digits 0 (decimal_fuel f n) ≡ some n
unfolding decimal_fuel
read-decimal_fuel zero n h = elim h [ ]
read-decimal_fuel (suc f) n h = ground (
  arith,
  read_digits-append 0 (n / 10) (n % 10) (decimal_fuel f (n / 10)) (omega arith),
  read_one n,
  read-decimal_fuel f (n / 10),
)
  where
    read_one : (n : ℕ) → n < 10 → read_digits 0 ((b'0' + n) ∷ []) ≡ some n
    read_one n h = unfold read_digits is_digit in ground arith

-- Reading what was printed gives the number back.
pub read-decimal : (n : ℕ) → read_digits 0 (decimal n) ≡ some n
unfolding decimal
read-decimal n = read-decimal_fuel (suc n) n (omega arith)

abbrev pub AllDigits : Str → Type 0
AllDigits [] = Unit
AllDigits (c ∷ s) = (is_digit c ≡ true) × AllDigits s

AllDigits-append : (s t : Str) → AllDigits s → AllDigits t → AllDigits (s ++ t)
AllDigits-append [] t a b = b
AllDigits-append (c ∷ s) t a b = (a.0, AllDigits-append s t a.1 b)

decimal-AllDigits : (f n : ℕ) → AllDigits (decimal_fuel f n)
unfolding decimal_fuel
decimal-AllDigits zero n = tt
decimal-AllDigits (suc f) n =
    split (decimal_fuel f (n / 10) ++ (b'0' + n % 10) ∷ []) n
      (AllDigits-append _ _ (decimal-AllDigits f (n / 10)) (digit (n % 10) (omega arith), tt))
  where
    digit : (d : ℕ) → d < 10 → is_digit (b'0' + d) ≡ true
    digit d h = unfold is_digit in ground arith

    split : (s : Str) (n : ℕ) → AllDigits s → AllDigits (if ltb n 10 then (b'0' + n) ∷ [] else s)
    split s n a = elim (Bool-cases (ltb n 10)) [
      | inl e ↦ rw e (digit n (ltb→lt n 10 e), tt)
      | inr e ↦ rw e a
    ]

pub decimal-digits : (n : ℕ) → AllDigits (decimal n)
unfolding decimal
decimal-digits n = decimal-AllDigits (suc n) n

trim_left-digits : (s : Str) → AllDigits s → trim_left s ≡ s
unfolding trim_left is_space is_digit
trim_left-digits [] a = refl
trim_left-digits (c ∷ s) a = ground arith

trim_right-digits : (s : Str) → AllDigits s → trim_right s ≡ s
unfolding trim_right is_space is_digit
trim_right-digits [] a = refl
trim_right-digits (c ∷ []) a = ground arith
trim_right-digits (c ∷ d ∷ s) a = rw (trim_right-digits (d ∷ s) a.1, trim_right)

pub trim_space-decimal : (n : ℕ) → trim_space (decimal n) ≡ decimal n
unfolding trim_space decimal
trim_space-decimal n =
    let a : AllDigits (decimal_fuel (suc n) n) = decimal-AllDigits (suc n) n in
    rw (trim_left-digits (decimal_fuel (suc n) n) a) (trim_right-digits (decimal_fuel (suc n) n) a)

atoi-digits :
    (n : ℕ) (s : Str)
    → AllDigits s
    → s ≢ []
    → read_digits 0 s ≡ some n
    → n ≤ max_int64
    → atoi s ≡ some (pos n)
unfolding atoi
atoi-digits n [] a h e b = absurd (h refl)
atoi-digits n (c ∷ s) a h e b = ground (arith, a.0, e)

snoc-ne-nil : (s : Str) (c : ℕ) → s ++ c ∷ [] ≢ []
snoc-ne-nil [] c h = cc
snoc-ne-nil (d ∷ s) c h = cc

pub decimal-ne-nil : (n : ℕ) → decimal n ≢ []
unfolding decimal decimal_fuel
decimal-ne-nil n h = ground (arith, snoc-ne-nil (decimal_fuel n (n / 10)) (b'0' + n % 10))

-- `Atoi` after `Itoa` gives the number back, up to the largest `int`.
pub atoi-decimal : (n : ℕ) → n ≤ max_int64 → atoi (decimal n) ≡ some (pos n)
atoi-decimal n h =
    atoi-digits n (decimal n) (decimal-digits n) (decimal-ne-nil n) (read-decimal n) h
