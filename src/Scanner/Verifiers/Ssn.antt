-- ===== src/Scanner/Verifiers/Ssn.antt =====
-- `SSNValid` and `SSNAreaValid` of internal/scanner/verifiers.go.
use promptshield_beta.Base.{
  refl, List, ℕ, ◌∷◌, Bool, length, ◌+◌, if◌then◌else◌, ◌≡◌, ◌==◌, ltb, true, ◌*◌, false, arith,
  not, ◌≤◌, Bool-cases, [], ◌||◌, leb, inr, some, inl, ◌++◌, ◌-◌, none, append-nil, length-append,
  append_assoc,
}
use promptshield_beta.Scanner.Verifiers.{
  ssn_parts, ssn_loop, area_loop, ssn_valid, digits_of, ssn_area_valid,
}
use promptshield_beta.Base.Text.{Str}

-- The loop of `SSNAreaValid` on the digits alone.
area_digits : List ℕ → ℕ → ℕ → ℕ × ℕ
area_digits [] n area = (n, area)
area_digits (d ∷ ds) n area = elim (n + 1 == 3) [
  | true ↦ (n + 1, area * 10 + d)
  | false ↦ area_digits ds (n + 1) (area * 10 + d)
]

area_test : ℕ × ℕ → Bool
area_test r = if ltb r.0 3 then false else not (r.1 == 0 || r.1 == 666 || leb 900 r.1)

ssn_parts-area :
    (ds : List ℕ) → length ds ≡ 9 → ssn_parts ds ≡ true → area_test (area_digits ds 0 0) ≡ true
unfolding ssn_parts area_test area_digits
ssn_parts-area [] e h = ground (arith, e)
ssn_parts-area (a ∷ []) e h = ground (arith, e)
ssn_parts-area (a ∷ b ∷ []) e h = ground (arith, e)
ssn_parts-area (a ∷ b ∷ c ∷ ds) e h = ground (arith, h)

module _ (is_digit : ℕ → Bool) where
  -- The loop collects the digits, and gives up at the tenth.
  ssn_loop_lem :
      (s : Str) (d : List ℕ)
      → length d ≤ 9
      → ssn_loop is_digit s d ≡ (
          if leb (length d + length (digits_of is_digit s)) 9
          then some (d ++ digits_of is_digit s)
          else none)
  unfolding ssn_loop digits_of
  ssn_loop_lem [] d h = rw append-nil (ground (arith, h))
  ssn_loop_lem (r ∷ s) d h = elim (Bool-cases (is_digit r)) [
    | inr e ↦ rw (e, ssn_loop) (ssn_loop_lem s d h)
    | inl e ↦ elim (Bool-cases (length d == 9)) [
      | inl full ↦ rw (e, full, ssn_loop) (ground (arith, full))
      | inr room ↦
          rw
            (
              e,
              room,
              ssn_loop,
              ssn_loop_lem s (d ++ (r - b'0') ∷ [])
                  (ground (arith, room, length-append d ((r - b'0') ∷ []), h)),
            )
            (ground (
              arith,
              length-append d ((r - b'0') ∷ []),
              append_assoc d ((r - b'0') ∷ []) (digits_of is_digit s),
            ))
    ]
  ]

  area_loop_lem :
      (s : Str) (n area : ℕ)
      → area_loop is_digit s n area ≡ area_digits (digits_of is_digit s) n area
  unfolding area_loop area_digits digits_of
  area_loop_lem [] n area = refl
  area_loop_lem (r ∷ s) n area = elim (Bool-cases (is_digit r)) [
    | inr e ↦ rw (e, area_loop) (area_loop_lem s n area)
    | inl e ↦ elim (Bool-cases (n + 1 == 3)) [
      | inl last ↦ rw (e, last, area_loop, area_digits) refl
      | inr more ↦
          rw (e, more, area_loop, area_digits) (area_loop_lem s (n + 1) (area * 10 + (r - b'0')))
    ]
  ]

  -- Whatever the digit table, a string that `SSNValid` accepts has nine digits, and its area passes
  -- `SSNAreaValid`.
  pub ssn_valid-area :
      (s : Str)
      → ssn_valid is_digit s ≡ true
      → (length (digits_of is_digit s) ≡ 9) × (ssn_area_valid is_digit s ≡ true)
  unfolding ssn_valid ssn_area_valid area_test
  ssn_valid-area s h =
      (nine.0, rw (area_loop_lem s 0 0) (ssn_parts-area (digits_of is_digit s) nine.0 nine.1))
    where
      nine : (length (digits_of is_digit s) ≡ 9) × (ssn_parts (digits_of is_digit s) ≡ true)
      nine = ground (arith, h, ssn_loop_lem s [] (omega arith))
