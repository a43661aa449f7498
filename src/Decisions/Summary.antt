-- ===== src/Decisions/Summary.antt =====
-- `Get` and `Stats` of internal/application/decisions/log.go, and `percentile`. The block rate is
-- kept as its two numbers; the rank `ceil(p*n) - 1` is written for a percentage `p`.
use promptshield_beta.Decisions.{Record, Log, recent, all_query, count_of, deny, quarantine}
use promptshield_beta.Base.{
  ℕ, List, ◌∷◌, ◌*◌, length, ◌≡◌, ◌≤◌, ◌<◌, if◌then◌else◌, ◌+◌, get_or, suc, arith, ◌-◌, [], leb,
  ◌/◌, ltb, map, zero, refl, ap,
}
use promptshield_beta.Base.Map.{Map}

-- `sort.Float64s`
unfoldable pub insert_sorted : ℕ → List ℕ → List ℕ
insert_sorted x [] = x ∷ []
insert_sorted x (y ∷ ys) = let rest = insert_sorted x ys in if leb x y then x ∷ y ∷ ys else y ∷ rest

unfoldable pub sort : List ℕ → List ℕ
sort [] = []
sort (x ∷ xs) = insert_sorted x (sort xs)

-- `int(math.Ceil(p*float64(n))) - 1`, raised to 0.
unfoldable pub rank : ℕ → ℕ → ℕ
rank percent n = (percent * n + 99) / 100 - 1

unfoldable pub percentile : ℕ → List ℕ → ℕ
percentile percent [] = 0
percentile percent (x ∷ xs) = get_or (sort (x ∷ xs)) (rank percent (length (x ∷ xs))) 0

pub record Stats : Type 0 where
  pub total : ℕ
  pub by_decision : Map ℕ
  pub blocked : ℕ
  pub latency_p50_ms : ℕ
  pub latency_p95_ms : ℕ
  pub last_minute : ℕ
  pub retained : ℕ
  pub capacity : ℕ
  pub since : ℕ

-- `r.Time.After(cutoff)`, at `cutoff = now - minute`
unfoldable pub count_after : ℕ → ℕ → List Record → ℕ
count_after now minute [] = 0
count_after now minute (r ∷ rs) =
    (if ltb now (r.time + minute) then 1 else 0) + count_after now minute rs

unfoldable pub stats : ℕ → ℕ → Log → Stats
stats now minute l =
    let records = recent l all_query in
    let latencies = map (λ r. r.latency_ms) records in
    record {
      total = l.total;
      by_decision = l.counts;
      blocked = count_of deny l.counts + count_of quarantine l.counts;
      latency_p50_ms = percentile 50 latencies;
      latency_p95_ms = percentile 95 latencies;
      last_minute = count_after now minute records;
      retained = l.size;
      capacity = length l.buf;
      since = l.started;
    }

length-insert_sorted : (x : ℕ) (xs : List ℕ) → length (insert_sorted x xs) ≡ suc (length xs)
unfolding insert_sorted
length-insert_sorted x [] = refl
length-insert_sorted x (y ∷ ys) = ground (arith, length-insert_sorted x ys)

length-sort : (xs : List ℕ) → length (sort xs) ≡ length xs
unfolding sort
length-sort [] = refl
length-sort (x ∷ xs) = omega (arith, length-insert_sorted x (sort xs), length-sort xs)

-- How many values of a list are at most `v`.
unfoldable pub count_le : ℕ → List ℕ → ℕ
count_le v [] = 0
count_le v (x ∷ xs) = (if leb x v then 1 else 0) + count_le v xs

-- How many are at least `v`.
unfoldable pub count_ge : ℕ → List ℕ → ℕ
count_ge v [] = 0
count_ge v (x ∷ xs) = (if leb v x then 1 else 0) + count_ge v xs

count_le-insert_sorted :
    (v x : ℕ) (xs : List ℕ)
    → count_le v (insert_sorted x xs) ≡ (if leb x v then 1 else 0) + count_le v xs
unfolding count_le insert_sorted
count_le-insert_sorted v x [] = refl
count_le-insert_sorted v x (y ∷ ys) = ground (arith, count_le-insert_sorted v x ys)

count_ge-insert_sorted :
    (v x : ℕ) (xs : List ℕ)
    → count_ge v (insert_sorted x xs) ≡ (if leb v x then 1 else 0) + count_ge v xs
unfolding count_ge insert_sorted
count_ge-insert_sorted v x [] = refl
count_ge-insert_sorted v x (y ∷ ys) = ground (arith, count_ge-insert_sorted v x ys)

count_le-sort : (v : ℕ) (xs : List ℕ) → count_le v (sort xs) ≡ count_le v xs
unfolding count_le sort
count_le-sort v [] = refl
count_le-sort v (x ∷ xs) = omega (arith, count_le-insert_sorted v x (sort xs), count_le-sort v xs)

count_ge-sort : (v : ℕ) (xs : List ℕ) → count_ge v (sort xs) ≡ count_ge v xs
unfolding count_ge sort
count_ge-sort v [] = refl
count_ge-sort v (x ∷ xs) = omega (arith, count_ge-insert_sorted v x (sort xs), count_ge-sort v xs)

-- Every value of the list is at least `b`.
abbrev AllGe : ℕ → List ℕ → Type 0
AllGe b [] = Unit
AllGe b (x ∷ xs) = (b ≤ x) × AllGe b xs

abbrev Sorted : List ℕ → Type 0
Sorted [] = Unit
Sorted (x ∷ xs) = AllGe x xs × Sorted xs

AllGe-weaken : (a b : ℕ) (xs : List ℕ) → a ≤ b → AllGe b xs → AllGe a xs
AllGe-weaken a b [] h k = tt
AllGe-weaken a b (x ∷ xs) h k = (omega arith, AllGe-weaken a b xs h k.1)

AllGe-insert_sorted : (b x : ℕ) (xs : List ℕ) → b ≤ x → AllGe b xs → AllGe b (insert_sorted x xs)
unfolding insert_sorted
AllGe-insert_sorted b x [] h k = (h, tt)
AllGe-insert_sorted b x (y ∷ ys) h k = ground (arith, AllGe-insert_sorted b x ys h k.1)

Sorted-insert_sorted : (x : ℕ) (xs : List ℕ) → Sorted xs → Sorted (insert_sorted x xs)
unfolding insert_sorted
Sorted-insert_sorted x [] s = (tt, tt)
Sorted-insert_sorted x (y ∷ ys) s =
    ground (arith, Sorted-insert_sorted x ys s.1, AllGe-insert_sorted y x ys, AllGe-weaken x y ys)

Sorted-sort : (xs : List ℕ) → Sorted (sort xs)
unfolding sort
Sorted-sort [] = tt
Sorted-sort (x ∷ xs) = Sorted-insert_sorted x (sort xs) (Sorted-sort xs)

count_ge-all : (b : ℕ) (xs : List ℕ) → AllGe b xs → count_ge b xs ≡ length xs
unfolding count_ge
count_ge-all b [] a = refl
count_ge-all b (x ∷ xs) a = ground (arith, count_ge-all b xs a.1)

get_or-AllGe : (b i : ℕ) (xs : List ℕ) → AllGe b xs → i < length xs → b ≤ get_or xs i 0
get_or-AllGe b i [] a h = elim h [ ]
get_or-AllGe b zero (x ∷ xs) a h = a.0
get_or-AllGe b (suc i) (x ∷ xs) a h = get_or-AllGe b i xs a.1 (omega arith)

-- In a sorted list, position `i` has at least `i + 1` values below or equal, and what follows
-- is above or equal.
Sorted-position :
    (i : ℕ) (xs : List ℕ)
    → Sorted xs
    → i < length xs
    → (i < count_le (get_or xs i 0) xs) × (length xs ≤ i + count_ge (get_or xs i 0) xs)
unfolding count_le count_ge
Sorted-position i [] s h = elim h [ ]
Sorted-position zero (x ∷ xs) s h = ground (arith, count_ge-all x xs s.0)
Sorted-position (suc i) (x ∷ xs) s h =
    ground (arith, Sorted-position i xs s.1 (omega arith), get_or-AllGe x i xs s.0 (omega arith))

rank_bounds :
    (m n : ℕ)
    → m ≤ 100 * n
    → 0 < n
    → let r = (m + 99) / 100 - 1 in (r < n) × (m ≤ 100 * (r + 1)) × (100 * r ≤ m)
rank_bounds m n h p = (omega arith, omega arith, omega arith)

scale : (p d n : ℕ) → p + d ≡ 100 → p * n + d * n ≡ 100 * n
scale p d n h = omega (arith, ap (λ (t : ℕ). t * n) h)

-- The nearest-rank percentile of a list that is not empty: at least `percent` in a hundred of
-- the values are at most the result, and at least `100 - percent` in a hundred are at least it.
pub percentile_rank :
    (percent : ℕ) (x : ℕ) (xs : List ℕ)
    → percent ≤ 100
    → let p = percentile percent (x ∷ xs) in
      (percent * length (x ∷ xs) ≤ 100 * count_le p (x ∷ xs))
      × ((100 - percent) * length (x ∷ xs) ≤ 100 * count_ge p (x ∷ xs))
unfolding percentile rank
percentile_rank percent x xs h =
    let all : List ℕ = x ∷ xs in
    let n = length all in
    let m = percent * n in
    let r = (m + 99) / 100 - 1 in
    let v = get_or (sort all) r 0 in
    let split = scale percent (100 - percent) n (omega arith) in
    let bounds = rank_bounds m n (omega arith) (omega arith) in
    let place =
      Sorted-position r (sort all) (Sorted-sort all) (omega (arith, length-sort all, bounds.0)) in
    (
      omega (arith, bounds.1, place.0, count_le-sort v all),
      omega (arith, bounds.2, place.1, count_ge-sort v all, split, length-sort all),
    )
