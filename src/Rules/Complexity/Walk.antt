-- ===== src/Rules/Complexity/Walk.antt =====
-- internal/rules/complexity.go: what the walk computes.
use promptshield_beta.Base.{
  ℕ, ◌≡◌, ◌+◌, suc, max, arith, ◌≤◌, List, ◌∷◌, inr, ap₂, ap, ◌∙◌, false, ◌⊎◌, ◌<◌, inl, true,
  Option-cases, sym, ◌≢◌, if-holds, refl,
}
use promptshield_beta.Rules.Complexity.{
  walk, Regexp, ComplexityScore, walk_subs, visit, alternate, count, repeat, other, Regexps, cons,
  nil, compute_regex_complexity, no_score, Calls, prefixed_regex, exceeds, limits_from_env,
  env_limit, ComplexityError, syntax_error,
}
use promptshield_beta.Base.Text.{Str}
use promptshield_beta.Base.Int.{ℤ, is_pos, pos, negsuc}
use promptshield_beta.Base.Decimal.{atoi}

-- The reference: each number of a tree by itself. The height is above the depth of the node, and a
-- repeat counts for two levels.
unfoldable mutual
  pub size : Regexp → ℕ
  size (alternate r rs) = suc (size r + size_subs rs)
  size (repeat r) = suc (size r)
  size (other rs) = suc (size_subs rs)

  pub size_subs : Regexps → ℕ
  size_subs nil = 0
  size_subs (cons r rs) = size r + size_subs rs

unfoldable mutual
  pub height : Regexp → ℕ
  height (alternate r rs) = max (1 + height r) (height_subs rs)
  height (repeat r) = 2 + height r
  height (other rs) = height_subs rs

  pub height_subs : Regexps → ℕ
  height_subs nil = 0
  height_subs (cons r rs) = max (1 + height r) (height_subs rs)

unfoldable mutual
  pub branches : Regexp → ℕ
  branches (alternate r rs) = count rs + (branches r + branches_subs rs)
  branches (repeat r) = branches r
  branches (other rs) = branches_subs rs

  pub branches_subs : Regexps → ℕ
  branches_subs nil = 0
  branches_subs (cons r rs) = branches r + branches_subs rs

unfoldable mutual
  pub repeat_count : Regexp → ℕ
  repeat_count (alternate r rs) = repeat_count r + repeat_subs rs
  repeat_count (repeat r) = suc (repeat_count r)
  repeat_count (other rs) = repeat_subs rs

  pub repeat_subs : Regexps → ℕ
  repeat_subs nil = 0
  repeat_subs (cons r rs) = repeat_count r + repeat_subs rs

abbrev pub Counts : ℕ → ℕ → ℕ → ComplexityScore → ComplexityScore → Type 0
Counts n a k s s' =
    (s'.nodes ≡ s.nodes + n) × (s'.alternations ≡ s.alternations + a) × (s'.repeats ≡ s.repeats + k)

mutual
  unfolding walk walk_subs size size_subs branches branches_subs repeat_count repeat_subs visit

  walk-Counts :
      (r : Regexp) (depth : ℕ) (s : ComplexityScore)
      → Counts (size r) (branches r) (repeat_count r) s (walk r depth s)
  walk-Counts (alternate r rs) depth s =
      grind (arith, walk-Counts r (depth + 1), walk_subs-Counts rs (depth + 1))
  walk-Counts (repeat r) depth s = grind (arith, walk-Counts r (depth + 2))
  walk-Counts (other rs) depth s = grind (arith, walk_subs-Counts rs (depth + 1))

  walk_subs-Counts :
      (rs : Regexps) (depth : ℕ) (s : ComplexityScore)
      → Counts (size_subs rs) (branches_subs rs) (repeat_subs rs) s (walk_subs rs depth s)
  walk_subs-Counts nil depth s = (omega arith, omega arith, omega arith)
  walk_subs-Counts (cons r rs) depth s =
      grind (arith, walk-Counts r depth s, walk_subs-Counts rs depth)

visit-depth : (depth : ℕ) (s : ComplexityScore) → (visit depth s).max_depth ≡ max s.max_depth depth
unfolding visit
visit-depth depth s = ground arith

mutual
  unfolding walk walk_subs height height_subs

  walk-height :
      (r : Regexp) (depth : ℕ) (s : ComplexityScore)
      → (walk r depth s).max_depth ≡ max s.max_depth (depth + height r)
  walk-height (alternate r rs) depth s = omega (
    arith,
    visit-depth depth s,
    walk-height r (depth + 1)
        (record (visit depth s) { alternations = (visit depth s).alternations + count rs }),
    walk_subs-height rs depth (
        walk r (depth + 1)
          (record (visit depth s) { alternations = (visit depth s).alternations + count rs })),
  )
  walk-height (repeat r) depth s = omega (
    arith,
    visit-depth depth s,
    walk-height r (depth + 2) (record (visit depth s) { repeats = suc (visit depth s).repeats }),
  )
  walk-height (other rs) depth s =
      omega (arith, visit-depth depth s, walk_subs-height rs depth (visit depth s))

  walk_subs-height :
      (rs : Regexps) (depth : ℕ) (s : ComplexityScore)
      → depth ≤ s.max_depth
      → (walk_subs rs (depth + 1) s).max_depth ≡ max s.max_depth (depth + height_subs rs)
  walk_subs-height nil depth s h = omega (arith, h)
  walk_subs-height (cons r rs) depth s h =
      omega
        (arith, h, walk-height r (depth + 1) s, walk_subs-height rs depth (walk r (depth + 1) s))

score_eq :
    {n n' m m' a a' k k' : ℕ}
    → n ≡ n'
    → m ≡ m'
    → a ≡ a'
    → k ≡ k'
    → ◌≡◌ {A = ComplexityScore}
        (record { nodes = n; max_depth = m; alternations = a; repeats = k })
        (record { nodes = n'; max_depth = m'; alternations = a'; repeats = k' })
score_eq {n' = n'} {m' = m'} {a = a} {k = k} e f g h =
    ap₂ (λ (x y : ℕ). record { nodes = x; max_depth = y; alternations = a; repeats = k }) e f
    ∙ ap₂ (λ (x y : ℕ). record { nodes = n'; max_depth = m'; alternations = x; repeats = y }) g h

-- The score of a regex that parses has the number of nodes of the simplified tree, its height
-- above 1, and the numbers of its extra branches and of its repeats, each counted by itself.
pub compute_regex_complexity_lem :
    (c : Calls) (b : ℕ) (expr : Str) (flags : List Str) (r : Regexp)
    → c.parse (prefixed_regex c.to_lower (b ∷ expr) flags) ≡ inr r
    → let t = c.simplify r in
      compute_regex_complexity c (b ∷ expr) flags
      ≡ inr (record {
        nodes = size t;
        max_depth = 1 + height t;
        alternations = branches t;
        repeats = repeat_count t;
      })
unfolding compute_regex_complexity no_score limits_from_env
compute_regex_complexity_lem c b expr flags r e =
    let t = c.simplify r in
    let (n, a, k) = walk-Counts t 1 no_score in
    rw (compute_regex_complexity, e)
      (ap inr (
        score_eq (omega (arith, n)) (omega (arith, walk-height t 1 no_score)) (omega (arith, a))
          (omega (arith, k))))

env_limit-positive :
    (getenv : Str → Str) (name : Str) (n : ℕ)
    → 0 < n
    → is_pos (env_limit getenv name (pos n)) ≡ true
unfolding env_limit
env_limit-positive getenv name n h = elim (Option-cases (atoi (getenv name))) [
  | inl z ↦ rw (env_limit, z) (ground (arith, h))
  | inr (k, z) ↦
      rw (env_limit, z)
        (if-holds (λ x. is_pos x ≡ true) (is_pos k) k (pos n) (λ e. e) (λ e. ground (arith, h)))
]

positive-exceeds : (l : ℤ) → is_pos l ≡ true → exceeds 0 l ≡ false
unfolding exceeds
positive-exceeds (pos n) h = ground (arith, h)
positive-exceeds (negsuc n) h = ground (arith, h)

other_side : (x : ComplexityError) (s : ComplexityScore) → inl x ≢ inr s
other_side x s e = ground (arith, e)

score_of :
    {s t : ComplexityScore} → ◌≡◌ {A = ComplexityError ⊎ ComplexityScore} (inr s) (inr t) → s ≡ t
score_of e = ap right e
  where
    right : ComplexityError ⊎ ComplexityScore → ComplexityScore
    right (inl x) = no_score
    right (inr s) = s

-- Where simplifying leaves no repeat in a tree, as `Simplify` documents, a regex that parses has no
-- repeats in its score, so that the limit on repeats is never exceeded, whatever the environment.
pub check-repeats_unused :
    (c : Calls) (b : ℕ) (expr : Str) (flags : List Str) (s : ComplexityScore)
    → ((r : Regexp) → repeat_count (c.simplify r) ≡ 0)
    → compute_regex_complexity c (b ∷ expr) flags ≡ inr s
    → (s.repeats ≡ 0) × (exceeds s.repeats (limits_from_env c.getenv).max_repeats ≡ false)
unfolding compute_regex_complexity no_score limits_from_env
check-repeats_unused c b expr flags s h e =
    go (c.parse (prefixed_regex c.to_lower (b ∷ expr) flags)) refl
  where
    go :
        (p : Str ⊎ Regexp)
        → c.parse (prefixed_regex c.to_lower (b ∷ expr) flags) ≡ p
        → (s.repeats ≡ 0) × (exceeds s.repeats (limits_from_env c.getenv).max_repeats ≡ false)
    go (inl x) z =
        absurd (other_side (syntax_error x) s (sym (rw (compute_regex_complexity, z) refl) ∙ e))
    go (inr r) z =
        let t = c.simplify r in
        let scored : walk t 1 no_score ≡ s =
          score_of (sym (rw (compute_regex_complexity, z) refl) ∙ e) in
        let (n, a, k) = walk-Counts t 1 no_score in
        let none_left : s.repeats ≡ 0 =
          omega (arith, k, h r, ap (λ (x : ComplexityScore). x.repeats) scored) in
        (
          none_left,
          rw none_left (positive-exceeds _ (env_limit-positive c.getenv _ 1000 (omega arith))),
        )
