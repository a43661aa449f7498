-- ===== src/Scanner/Verifiers/Luhn.antt =====
-- `LuhnCheck` of internal/scanner/verifiers.go: what the checksum detects.
use promptshield_beta.Scanner.Verifiers.{digits_of, luhn_loop, luhn_term, luhn_check}
use promptshield_beta.Base.{
  ℕ, Bool, List, ◌++◌, ◌≤◌, ◌≡◌, ◌∷◌, ◌%◌, Bool-cases, ◌+◌, arith, true, ap, ◌≢◌, inl, false, ◌-◌,
  not, ◌∙◌, subst, inr, [], refl,
}
use promptshield_beta.Base.Text.{Str}

digits_of-append :
    (is_digit : ℕ → Bool) (s t : Str)
    → digits_of is_digit (s ++ t) ≡ digits_of is_digit s ++ digits_of is_digit t
unfolding digits_of
digits_of-append is_digit [] t = refl
digits_of-append is_digit (r ∷ s) t = elim (Bool-cases (is_digit r)) [
  | inl e ↦ rw e (ap (◌∷◌ (r - b'0')) (digits_of-append is_digit s t))
  | inr e ↦ rw e (digits_of-append is_digit s t)
]

-- The flag after a list depends on its length only.
loop-change :
    (a b : List ℕ) (x y : ℕ)
    → ((luhn_loop (a ++ x ∷ b)).0 ≡ (luhn_loop (a ++ y ∷ b)).0)
      × ((luhn_loop (a ++ x ∷ b)).1 + luhn_term (luhn_loop b).0 y
          ≡ (luhn_loop (a ++ y ∷ b)).1 + luhn_term (luhn_loop b).0 x)
unfolding luhn_loop
loop-change [] b x y = (refl, omega arith)
loop-change (d ∷ a) b x y =
    let ih = loop-change a b x y in (ap not ih.0, rw ih.0 (omega (arith, ih.1)))

luhn_term-injective :
    (alt : Bool) (x y : ℕ) → x ≤ 9 → y ≤ 9 → luhn_term alt x % 10 ≡ luhn_term alt y % 10 → x ≡ y
unfolding luhn_term
luhn_term-injective false x y hx hy h = omega arith
luhn_term-injective true x y hx hy h = ground arith

checked :
    (is_digit : ℕ → Bool) (s : Str)
    → luhn_check is_digit s ≡ true
    → (luhn_loop (digits_of is_digit s)).1 % 10 ≡ 0
unfolding luhn_check
checked is_digit s h = ground (arith, h)

-- Under any digit table that has the digits '0' to '9', `LuhnCheck` detects every change of one
-- digit: of two strings that differ in one decimal digit only, at most one is accepted.
pub luhn_check-detects :
    (is_digit : ℕ → Bool)
    → ((r : ℕ) → b'0' ≤ r → r ≤ b'9' → is_digit r ≡ true)
    → (a b : Str) (x y : ℕ) → x ≤ 9
    → y ≤ 9
    → x ≢ y
    → luhn_check is_digit (a ++ (b'0' + x) ∷ b) ≡ true
    → luhn_check is_digit (a ++ (b'0' + y) ∷ b) ≡ false
luhn_check-detects is_digit ascii a b x y hx hy ne h =
    elim (Bool-cases (luhn_check is_digit (a ++ (b'0' + y) ∷ b))) [
      | inr e ↦ e
      | inl e ↦ elim (ne (same_digit e)) [ ]
    ]
  where
    before : List ℕ
    before = digits_of is_digit a

    bs : List ℕ
    bs = digits_of is_digit b

    digits : (z : ℕ) → z ≤ 9 → digits_of is_digit (a ++ (b'0' + z) ∷ b) ≡ before ++ z ∷ bs
    digits z hz =
        digits_of-append is_digit a ((b'0' + z) ∷ b)
        ∙ ap (◌++◌ before) (
            unfold digits_of in
            rw (ascii (b'0' + z) (omega arith) (omega (arith, hz)))
              (ap (λ (c : ℕ). c ∷ bs) (omega arith)))

    total :
        (z : ℕ)
        → z ≤ 9
        → luhn_check is_digit (a ++ (b'0' + z) ∷ b) ≡ true
        → (luhn_loop (before ++ z ∷ bs)).1 % 10 ≡ 0
    total z hz e =
        subst (λ (ds : List ℕ). (luhn_loop ds).1 % 10 ≡ 0) (digits z hz)
          (checked is_digit (a ++ (b'0' + z) ∷ b) e)

    same_digit : luhn_check is_digit (a ++ (b'0' + y) ∷ b) ≡ true → x ≡ y
    same_digit e =
        luhn_term-injective (luhn_loop bs).0 x y hx hy
          (omega (arith, total x hx h, total y hy e, (loop-change before bs x y).1))
