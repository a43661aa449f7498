-- ===== src/Rules/Schema/Pointers.antt =====
-- internal/rules/validate.go: the parts of a JSON pointer are unescaped as they were escaped.
use promptshield_beta.Rules.Schema.{unescape, replace_tilde}
use promptshield_beta.Base.{
  false, ◌∷◌, ◌≡◌, if◌then◌else◌, Bool-cases, ap, ◌==◌, ◌∙◌, [], inl, arith, inr, refl,
}
use promptshield_beta.Base.Text.{Str}

-- The escape of a part in a JSON pointer: `~0` for `~` and `~1` for `/`.
abbrev escape : Str → Str
escape [] = []
escape (c ∷ s) =
    let rest = escape s in
    if c == b'~' then b'~' ∷ b'0' ∷ rest else if c == b'/' then b'~' ∷ b'1' ∷ rest else c ∷ rest

-- Only the first of the two.
abbrev escape_tilde : Str → Str
escape_tilde [] = []
escape_tilde (c ∷ s) =
    let rest = escape_tilde s in if c == b'~' then b'~' ∷ b'0' ∷ rest else c ∷ rest

first_pass : (s : Str) → replace_tilde b'1' b'/' false (escape s) ≡ escape_tilde s
unfolding replace_tilde
first_pass [] = refl
first_pass (c ∷ s) =
    let rest = first_pass s in
    elim (Bool-cases (c == b'~')) [
      | inl e ↦ ground (arith, e, rest)
      | inr e ↦ elim (Bool-cases (c == b'/')) [
        | inl z ↦ ground (arith, e, z, rest)
        | inr z ↦ ground (arith, e, z, rest)
      ]
    ]

second_pass : (s : Str) → replace_tilde b'0' b'~' false (escape_tilde s) ≡ s
unfolding replace_tilde
second_pass [] = refl
second_pass (c ∷ s) =
    let rest = second_pass s in
    elim (Bool-cases (c == b'~')) [
      | inl e ↦ ground (arith, e, rest)
      | inr e ↦ ground (arith, e, rest)
    ]

-- The two replacements, in their order, undo the escape of every text.
unescape-escape : (s : Str) → unescape (escape s) ≡ s
unfolding unescape
unescape-escape s = ap (replace_tilde b'0' b'~' false) (first_pass s) ∙ second_pass s
