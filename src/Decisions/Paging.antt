-- ===== src/Decisions/Paging.antt =====
-- `Page` of internal/application/decisions/page.go: following the cursor visits every matching
-- record once, and records added between two calls do not shift the later pages.
use promptshield_beta.Decisions.{Record, Log, Query, page, slot, last_seq, rejects, scan}
use promptshield_beta.Base.{
  ℕ, List, ◌∷◌, ◌≤◌, ◌≡◌, ◌<◌, if◌then◌else◌, arith, ◌+◌, length, [], ltb, take, suc, refl, drop,
  true, zero, ◌∙◌, ◌⊎◌, ◌++◌, ap, length-take, dec_lt, inr, take-append-drop, inl,
}
use promptshield_beta.Decisions.Refine.{window, retained}
use promptshield_beta.Decisions.Scan.{select, too_new, scan-select, take_limit}
use promptshield_beta.Decisions.Inv.{IsValid}
use promptshield_beta.Base.Int.{is_pos, pos_part, pos, max_int64, suc_int64}

-- Every record of the list is older than `b`.
abbrev pub AllOlder : ℕ → List Record → Type 0
AllOlder b [] = Unit
AllOlder b (r ∷ rs) = (r.seq < b) × AllOlder b rs

-- Newest first: sequence numbers fall, and are at least 1.
abbrev pub Descending : List Record → Type 0
Descending [] = Unit
Descending (r ∷ rs) = (0 < r.seq) × AllOlder r.seq rs × Descending rs

older : ℕ → List Record → List Record
older b [] = []
older b (r ∷ rs) = let rest = older b rs in if ltb r.seq b then r ∷ rest else rest

AllOlder-weaken : (b c : ℕ) (rs : List Record) → b ≤ c → AllOlder b rs → AllOlder c rs
AllOlder-weaken b c [] h a = tt
AllOlder-weaken b c (r ∷ rs) h a = (omega arith, AllOlder-weaken b c rs h a.1)

window-AllOlder :
    (l : Log) (n i b : ℕ)
    → IsValid l
    → 0 < i
    → i + n ≤ l.size + 1
    → l.total + 1 < b + i
    → AllOlder b (window l n i)
unfolding window
window-AllOlder l zero i b v p h k = tt
window-AllOlder l (suc n) i b v p h k = (
  omega (arith, v.seqs i p (omega arith)),
  window-AllOlder l n (suc i) b v (omega arith) (omega arith) (omega arith),
)

window-Descending :
    (l : Log) (n i : ℕ) → IsValid l → 0 < i → i + n ≤ l.size + 1 → Descending (window l n i)
unfolding window
window-Descending l zero i v p h = tt
window-Descending l (suc n) i v p h =
    let e : (slot l i).seq + i ≡ l.total + 1 = v.seqs i p (omega arith) in
    (
      omega (arith, v.size_le_total),
      window-AllOlder l n (suc i) (slot l i).seq v (omega arith) (omega arith) (omega arith),
      window-Descending l n (suc i) v (omega arith) (omega arith),
    )

-- The retained records are numbered in falling order.
pub retained-Descending : (l : Log) → IsValid l → Descending (retained l)
unfolding retained
retained-Descending l v = window-Descending l l.size 1 v (omega arith) (omega arith)

select-AllOlder : (q : Query) (b : ℕ) (rs : List Record) → AllOlder b rs → AllOlder b (select q rs)
unfolding select
select-AllOlder q b [] a = tt
select-AllOlder q b (r ∷ rs) a = ground (arith, select-AllOlder q b rs a.1)

select-Descending : (q : Query) (rs : List Record) → Descending rs → Descending (select q rs)
unfolding select
select-Descending q [] d = tt
select-Descending q (r ∷ rs) d =
    ground (arith, select-Descending q rs d.2, select-AllOlder q r.seq rs d.1)

older-all : (b : ℕ) (rs : List Record) → AllOlder b rs → older b rs ≡ rs
unfolding older
older-all b [] a = refl
older-all b (r ∷ rs) a = ground (arith, older-all b rs a.1)

last_seq-lt :
    (k b : ℕ) (rs : List Record) → AllOlder b rs → 0 < k → k ≤ length rs → last_seq (take k rs) < b
unfolding last_seq
last_seq-lt zero b rs a p h = elim p [ ]
last_seq-lt (suc k) b [] a p h = elim h [ ]
last_seq-lt (suc zero) b (r ∷ rs) a p h = a.0
last_seq-lt (suc (suc k)) b (r ∷ []) a p h = absurd (omega arith)
last_seq-lt (suc (suc k)) b (r ∷ s ∷ rs) a p h =
    last_seq-lt (suc k) b (s ∷ rs) a.1 (omega arith) (omega arith)

last_seq-pos :
    (k : ℕ) (rs : List Record) → Descending rs → 0 < k → k ≤ length rs → 0 < last_seq (take k rs)
unfolding last_seq
last_seq-pos zero rs d p h = elim p [ ]
last_seq-pos (suc k) [] d p h = elim h [ ]
last_seq-pos (suc zero) (r ∷ rs) d p h = d.0
last_seq-pos (suc (suc k)) (r ∷ []) d p h = absurd (omega arith)
last_seq-pos (suc (suc k)) (r ∷ s ∷ rs) d p h =
    last_seq-pos (suc k) (s ∷ rs) d.2 (omega arith) (omega arith)

-- What is older than the last of the first `k` records is what follows them.
older_last :
    (k : ℕ) (rs : List Record)
    → Descending rs
    → 0 < k
    → k ≤ length rs
    → older (last_seq (take k rs)) rs ≡ drop k rs
unfolding older last_seq
older_last zero rs d p h = elim p [ ]
older_last (suc k) [] d p h = elim h [ ]
older_last (suc zero) (r ∷ rs) d p h = ground (arith, older-all r.seq rs d.1)
older_last (suc (suc k)) (r ∷ []) d p h = absurd (omega arith)
older_last (suc (suc k)) (r ∷ s ∷ rs) d p h =
    skip r (last_seq (take (suc k) (s ∷ rs))) (s ∷ rs)
      (last_seq-lt (suc k) r.seq (s ∷ rs) d.1 (omega arith) (omega arith))
    ∙ older_last (suc k) (s ∷ rs) d.2 (omega arith) (omega arith)
  where
    skip : (r : Record) (b : ℕ) (rs : List Record) → b < r.seq → older b (r ∷ rs) ≡ older b rs
    skip r b rs h = ground arith

select-resume :
    (q : Query) (b : ℕ) (rs : List Record)
    → 0 < b
    → (is_pos q.before ≡ true → b ≤ pos_part q.before)
    → select (record q { before = pos b }) rs ≡ older b (select q rs)
unfolding select older too_new rejects
select-resume q b [] p h = refl
select-resume q b (r ∷ rs) p h = ground (arith, select-resume q b rs p h)

select-before :
    (q : Query) (b : ℕ) (rs : List Record)
    → is_pos q.before ≡ true
    → b ≡ pos_part q.before
    → AllOlder b (select q rs)
unfolding select too_new
select-before q b [] p e = tt
select-before q b (r ∷ rs) p e = ground (arith, select-before q b rs p e)

-- The records that a query asks for, newest first.
unfoldable pub matching : Log → Query → List Record
matching l q = select q (retained l)

-- The query that continues a listing at a page's cursor.
abbrev pub resume : Query → ℕ → Query
resume q next = record q { before = pos next }

matching-resume :
    (l : Log) (q : Query) (k : ℕ)
    → IsValid l
    → 0 < k
    → k ≤ length (matching l q)
    → matching l (resume q (last_seq (take k (matching l q)))) ≡ drop k (matching l q)
unfolding matching
matching-resume l q k v p h =
    select-resume q b (retained l) (last_seq-pos k found falling p h) (λ e. within e)
    ∙ older_last k found falling p h
  where
    found : List Record
    found = select q (retained l)

    b : ℕ
    b = last_seq (take k found)

    falling : Descending found
    falling = select-Descending q (retained l) (retained-Descending l v)

    within : is_pos q.before ≡ true → b ≤ pos_part q.before
    within e =
        omega (
          arith,
          last_seq-lt k (pos_part q.before) found (select-before q _ (retained l) e refl) p h,
        )

module _ {ℓ} {A : Type ℓ} where
  pub take_of_length-le : (n : ℕ) (xs : List A) → length xs ≤ n → take n xs ≡ xs
  take_of_length-le zero [] h = refl
  take_of_length-le zero (x ∷ xs) h = elim h [ ]
  take_of_length-le (suc n) [] h = refl
  take_of_length-le (suc n) (x ∷ xs) h = ap (◌∷◌ x) (take_of_length-le n xs (omega arith))

-- `Page` asks `scan` for one record more than the limit, or for all where `Limit+1` wraps.
probe-few :
    (l : Log) (q : Query) (k : ℕ)
    → IsValid l
    → length (matching l q) ≤ suc k
    → scan l q (suc_int64 (pos (suc k))) ≡ matching l q
probe-few l q k v h =
    scan-select l q (suc_int64 (pos (suc k))) v
    ∙ unfold take_limit matching in few (select q (retained l)) (unfold matching in h)
  where
    few : (rs : List Record) → length rs ≤ suc k → take_limit (suc_int64 (pos (suc k))) rs ≡ rs
    few rs h = unfold take_limit in ground (arith, take_of_length-le (suc k + 1) rs)

probe-many :
    (l : Log) (q : Query) (k : ℕ)
    → IsValid l
    → suc k < length (matching l q)
    → length (matching l q) ≤ max_int64
    → scan l q (suc_int64 (pos (suc k))) ≡ take (suc (suc k)) (matching l q)
unfolding matching
probe-many l q k v h b =
    scan-select l q (suc_int64 (pos (suc k))) v ∙ unfold take_limit in ground arith

take-take-suc {ℓ} : {A : Type ℓ} (n : ℕ) (xs : List A) → take n (take (suc n) xs) ≡ take n xs
take-take-suc zero xs = refl
take-take-suc (suc n) [] = refl
take-take-suc (suc n) (x ∷ xs) = ap (◌∷◌ x) (take-take-suc n xs)

page-few :
    (l : Log) (q : Query) (k : ℕ)
    → IsValid l
    → q.limit ≡ pos (suc k)
    → length (matching l q) ≤ suc k
    → page l q ≡ record { records = matching l q; next = 0 }
unfolding page
page-few l q k v e h = ground (arith, probe-few l q k v h)

page-many :
    (l : Log) (q : Query) (k : ℕ)
    → IsValid l
    → q.limit ≡ pos (suc k)
    → suc k < length (matching l q)
    → length (matching l q) ≤ max_int64
    → page l q ≡ record {
      records = take (suc k) (matching l q);
      next = last_seq (take (suc k) (matching l q));
    }
unfolding page
page-many l q k v e h b = ground (
  arith,
  probe-many l q k v h b,
  length-take (suc (suc k)) (matching l q),
  take-take-suc (suc k) (matching l q),
)

-- On a valid log and with a positive limit, a page without a cursor holds all the matching records;
-- one with a cursor holds the first `Limit` of them, and the query resumed at the cursor matches
-- exactly the others. The largest `Limit`, where the code's `Limit+1` wraps, is no exception, as
-- long as fewer than 2^63 records match.
pub page-matching :
    (l : Log) (q : Query) (k : ℕ)
    → IsValid l
    → q.limit ≡ pos (suc k)
    → length (matching l q) ≤ max_int64
    → (((page l q).next ≡ 0) × ((page l q).records ≡ matching l q))
      ⊎ ((0 < (page l q).next)
          × (length (page l q).records ≡ suc k)
          × ((page l q).records ++ matching l (resume q (page l q).next) ≡ matching l q))
page-matching l q k v e b = elim (dec_lt (suc k) (length (matching l q))) [
  | yes h ↦ inr (
      rw (page-many l q k v e h b) (
        last_seq-pos (suc k) (matching l q)
            (unfold matching in select-Descending q (retained l) (retained-Descending l v))
            (omega arith) (omega arith),
        omega (arith, length-take (suc k) (matching l q)),
        rw (matching-resume l q (suc k) v (omega arith) (omega arith))
            (take-append-drop (suc k) (matching l q)),
      ))
  | no h ↦ inl (rw (page-few l q k v e (omega arith)) (refl, refl))
]
