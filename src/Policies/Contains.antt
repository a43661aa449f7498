-- ===== src/Policies/Contains.antt =====
-- `contains` of internal/infrastructure/persistence/memory/policy_repository.go.
use promptshield_beta.Base.Text.{Str, same, same_refl, eq_of_same}
use promptshield_beta.Policies.{find_from, contains, find_in_string}
use promptshield_beta.Base.{
  ◌≡◌, take, ℕ, length, ◌++◌, true, ◌<◌, [], drop, ◌∷◌, arith, ◌+◌, ◌↔◌, sym, ap, length-append,
  ◌-◌, suc, refl, take-append-drop, append-nil, ◌∙◌, zero, Bool-cases, inl, inr,
}

-- The text occurs in s.
unfoldable pub Occurs : Str → Str → Type 0
Occurs sub s = (a : Str) × (b : Str) × (s ≡ a ++ (sub ++ b))

take-same : (s sub : Str) → same (take (length sub) s) sub ≡ true → s ≡ sub ++ drop (length sub) s
take-same s sub h =
    sym (take-append-drop (length sub) s)
    ∙ ap (λ (t : Str). t ++ drop (length sub) s) (eq_of_same (take (length sub) s) sub h)

take-prefix : (sub b : Str) → take (length sub) (sub ++ b) ≡ sub
take-prefix [] b = refl
take-prefix (c ∷ sub) b = ap (◌∷◌ c) (take-prefix sub b)

find_from-Occurs : (rounds : ℕ) (s sub : Str) → find_from rounds s sub ≡ true → Occurs sub s
unfolding find_from Occurs
find_from-Occurs zero s sub h = ground (arith, h)
find_from-Occurs (suc rounds) [] sub h = ([], [], rw append-nil (eq_of_same [] sub h))
find_from-Occurs (suc rounds) (c ∷ s) sub h =
    elim (Bool-cases (same (take (length sub) (c ∷ s)) sub)) [
      | inl e ↦ ([], drop (length sub) (c ∷ s), take-same (c ∷ s) sub e)
      | inr e ↦
          let later = find_from-Occurs rounds s sub (ground (arith, e, h)) in
          (c ∷ later.0, later.1, ap (◌∷◌ c) later.2)
    ]

find_from-found :
    (rounds : ℕ) (a sub b : Str) → length a < rounds → find_from rounds (a ++ (sub ++ b)) sub ≡ true
unfolding find_from
find_from-found zero a sub b h = ground (arith, h)
find_from-found (suc rounds) [] [] [] h = unfold same in refl
find_from-found (suc rounds) [] [] (c ∷ b) h = ground (arith, same_refl [])
find_from-found (suc rounds) [] (c ∷ sub) b h =
    ground (arith, take-prefix (c ∷ sub) b, same_refl (c ∷ sub))
find_from-found (suc rounds) (c ∷ a) sub b h =
    ground (arith, find_from-found rounds a sub b (omega (arith, h)))

length-Occurs : (a sub b : Str) → length (a ++ (sub ++ b)) ≡ length a + length sub + length b
length-Occurs a sub b = omega (arith, length-append a (sub ++ b), length-append sub b)

nil_of-length : (b : Str) → length b ≡ 0 → b ≡ []
nil_of-length [] h = refl
nil_of-length (c ∷ b) h = ground (arith, h)

-- `contains` decides whether the text occurs in the string, byte for byte.
pub contains_iff : (s sub : Str) → (contains s sub ≡ true) ↔ Occurs sub s
unfolding contains find_in_string
contains_iff s sub = (to, from)
  where
    suffix : same (drop (length s - length sub) s) sub ≡ true → Occurs sub s
    suffix e =
        unfold Occurs in
        (
          take (length s - length sub) s,
          [],
          sym (take-append-drop (length s - length sub) s)
              ∙ ap (◌++◌ (take (length s - length sub) s))
                  (eq_of_same (drop (length s - length sub) s) sub e ∙ sym (append-nil sub)),
        )

    prefix : same (take (length sub) s) sub ≡ true → Occurs sub s
    prefix e = unfold Occurs in ([], drop (length sub) s, take-same s sub e)

    whole : same s sub ≡ true → Occurs sub s
    whole e = unfold Occurs in ([], [], eq_of_same s sub e ∙ sym (append-nil sub))

    to : contains s sub ≡ true → Occurs sub s
    to h = elim (Bool-cases (same s sub)) [
      | inl e ↦ whole e
      | inr e ↦ elim (Bool-cases (same (take (length sub) s) sub)) [
        | inl e1 ↦ prefix e1
        | inr e1 ↦ elim (Bool-cases (same (drop (length s - length sub) s) sub)) [
          | inl e2 ↦ suffix e2
          | inr e2 ↦
              find_from-Occurs (length s + 1 - length sub) s sub (ground (arith, e, e1, e2, h))
        ]
      ]
    ]

    from : Occurs sub s → contains s sub ≡ true
    from o =
        unfold Occurs in
        let (a, b, e) = o in
        let long : length s ≡ length a + length sub + length b =
          ap length e ∙ length-Occurs a sub b in
        let hit : find_from (length s + 1 - length sub) s sub ≡ true = rw long (
          rw e (
            find_from-found (length a + length sub + length b + 1 - length sub) a sub b
              (omega arith))) in
        ground
          (arith, hit, long, nil_of-length a, nil_of-length b, e, append-nil sub, same_refl sub)
