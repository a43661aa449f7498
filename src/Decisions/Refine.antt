-- ===== src/Decisions/Refine.antt =====
-- The ring of `Log` (internal/application/decisions/log.go) against the history of all the
-- records that were ever added, newest first.
use promptshield_beta.Decisions.{
  Record, Log, add, slot, stamp, new_log, bump, count_of, ℕ, List, [], length, take, ◌≡◌, ◌+◌,
  default_capacity, zero_record,
}
use promptshield_beta.Decisions.Inv.{
  IsValid, slot-add_older, slot-add_first, add-IsValid, new_log-IsValid,
}
use promptshield_beta.Base.{
  suc, ◌∷◌, ap, arith, ◌<◌, min, ◌≤◌, ap₂, ◌-◌, zero, ◌∙◌, if◌then◌else◌, length-set, sym, refl,
  length-replicate,
}
use promptshield_beta.Base.Text.{Str, same, same_iff}
use promptshield_beta.Base.Map.{Map, lookup-insert, lookup}
use promptshield_beta.Base.Int.{ℤ, is_pos, pos_part}

-- The `n` records from offset `i` on.
unfoldable pub window : Log → ℕ → ℕ → List Record
window l zero i = []
window l (suc n) i = slot l i ∷ window l n (suc i)

-- The records that a log holds, newest first.
unfoldable pub retained : Log → List Record
unfolding window
retained l = window l l.size 1

pub length-window : (l : Log) (n i : ℕ) → length (window l n i) ≡ n
unfolding window
length-window l zero i = refl
length-window l (suc n) i = ap suc (length-window l n (suc i))

take-window : (l : Log) (c n i : ℕ) → take c (window l n i) ≡ window l (min c n) i
unfolding window
take-window l zero n i = rw (zero_min n)
  where
    zero_min : (n : ℕ) → min 0 n ≡ 0
    zero_min n = omega arith
take-window l (suc c) zero i = let e : min (suc c) 0 ≡ 0 = omega arith in rw (e, window)
take-window l (suc c) (suc n) i =
    let e : min (suc c) (suc n) ≡ suc (min c n) = omega arith in
    rw (e, window) (ap (◌∷◌ (slot l i)) (take-window l c n (suc i)))

window-add :
    (now : ℕ) (r : Record) (l : Log) (n i : ℕ)
    → IsValid l
    → 0 < i
    → i + n ≤ length l.buf
    → window (add now r l) n (suc i) ≡ window l n i
unfolding window
window-add now r l zero i v p q = refl
window-add now r l (suc n) i v p q =
    ap₂ ◌∷◌ (slot-add_older now r l i v p (omega arith))
      (window-add now r l n (suc i) v (omega arith) (omega arith))

retained-add-stamp :
    (now : ℕ) (r : Record) (l : Log) (c : ℕ)
    → IsValid l
    → length l.buf ≡ suc c
    → retained (add now r l) ≡ stamp now (l.total + 1) r ∷ window l (min c l.size) 1
unfolding retained window
retained-add-stamp now r l c v e =
    ap (λ k. window (add now r l) k 1) grown
    ∙ ap₂ ◌∷◌ (slot-add_first now r l v)
        (window-add now r l (min c l.size) 1 v (omega arith) (omega arith))
  where
    grown : (add now r l).size ≡ suc (min c l.size)
    grown = unfold add in ground (arith, v.size_le_cap)

-- Adding a record to a valid log puts it, stamped with the next sequence number, before the
-- retained ones, of which the oldest is dropped when the log is full.
pub retained-add :
    (now : ℕ) (r : Record) (l : Log)
    → IsValid l
    → retained (add now r l) ≡ take (length l.buf) (stamp now (l.total + 1) r ∷ retained l)
unfolding retained
retained-add now r l v =
    let e : length l.buf ≡ suc (length l.buf - 1) = omega (arith, v.cap_pos) in
    rw e (
      retained-add-stamp now r l (length l.buf - 1) v e
      ∙ ap (◌∷◌ (stamp now (l.total + 1) r)) (sym (take-window l (length l.buf - 1) l.size 1)))

-- A record to add, with the time of the call.
abbrev pub Entry : Type 0
Entry = ℕ × Record

-- The history after a call of `Add`: every record is kept, numbered from 1.
unfoldable pub note : Entry → List Record → List Record
note (now, r) h = stamp now (length h + 1) r ∷ h

unfoldable pub history : List Entry → List Record → List Record
history [] h = h
history (e ∷ es) h = history es (note e h)

unfoldable pub add_all : List Entry → Log → Log
add_all [] l = l
add_all ((now, r) ∷ es) l = add_all es (add now r l)

-- How many records of a history have the decision.
unfoldable pub decided : Str → List Record → ℕ
decided d [] = 0
decided d (r ∷ rs) = (if same r.decision d then 1 else 0) + decided d rs

-- The log holds the newest records of the history, its total is the length of the history, and
-- its counters count the history's decisions.
pub record Tracks (limit : ℕ) (l : Log) (h : List Record) : Type 0 where
  pub valid : IsValid l
  pub capacity : length l.buf ≡ limit
  pub newest : retained l ≡ take limit h
  pub number : l.total ≡ length h
  pub counted : (d : Str) → count_of d l.counts ≡ decided d h

count_of-bump :
    (d e : Str) (m : Map ℕ) → count_of d (bump e m) ≡ (if same e d then 1 else 0) + count_of d m
unfolding count_of bump
count_of-bump d e m = ground (arith, lookup-insert e d (count_of e m + 1) m, same_iff e d)

module _ {ℓ} {A : Type ℓ} where
  take-take : (n : ℕ) (xs : List A) → take n (take (suc n) xs) ≡ take n xs
  take-take zero xs = refl
  take-take (suc n) [] = refl
  take-take (suc n) (x ∷ xs) = ap (◌∷◌ x) (take-take n xs)

  take-cons-take : (n : ℕ) (x : A) (xs : List A) → take n (x ∷ take n xs) ≡ take n (x ∷ xs)
  take-cons-take zero x xs = refl
  take-cons-take (suc n) x xs = ap (◌∷◌ x) (take-take n xs)

-- One call of `Add` follows the history.
pub add-Tracks :
    (limit now : ℕ) (r : Record) {l : Log} {h : List Record}
    → Tracks limit l h
    → Tracks limit (add now r l) (note (now, r) h)
add-Tracks limit now r {l} {h} t = record {
  valid = add-IsValid now r l t.valid;
  capacity = unfold add in rw (length-set) t.capacity;
  newest = unfold note in newest_add;
  number = unfold add note in omega (arith, t.number);
  counted = λ d. unfold add note decided in count_add d;
}
  where
    newest_add : retained (add now r l) ≡ take limit (stamp now (length h + 1) r ∷ h)
    newest_add =
        retained-add now r l t.valid
        ∙ simp (t.capacity, t.number, t.newest)
            (take-cons-take limit (stamp now (length h + 1) r) h)

    count_add :
        (d : Str)
        → count_of d (bump r.decision l.counts) ≡ (if same r.decision d then 1 else 0) + decided d h
    count_add d = rw (count_of-bump d r.decision l.counts, t.counted d)

-- Adding records one by one keeps the tracking.
pub add_all-Tracks :
    (es : List Entry) (limit : ℕ) {l : Log} {h : List Record}
    → Tracks limit l h
    → Tracks limit (add_all es l) (history es h)
unfolding add_all history
add_all-Tracks [] limit t = t
add_all-Tracks ((now, r) ∷ es) limit t = add_all-Tracks es limit (add-Tracks limit now r t)

take-nil : (n : ℕ) → [] ≡ take {A = Record} n []
take-nil zero = refl
take-nil (suc n) = refl

new_log-counts : (now : ℕ) (c : ℤ) (d : Str) → count_of d (new_log now c).counts ≡ 0
unfolding new_log count_of lookup
new_log-counts now c d = ground arith

-- A new log with the capacity asked for, or 500, tracks the empty history.
pub new_log-Tracks :
    (now : ℕ) (c : ℤ)
    → Tracks (if is_pos c then pos_part c else default_capacity) (new_log now c) []
new_log-Tracks now c = record {
  valid = new_log-IsValid now c;
  capacity = unfold new_log in length-replicate _ zero_record;
  newest = unfold new_log retained window in take-nil _;
  number = unfold new_log in refl;
  counted = λ d. unfold decided in new_log-counts now c d;
}

-- Whatever records are added to a new log, at whatever times and capacity, the log holds the
-- newest records of the whole history, newest first and numbered in order, as many as fit; its
-- total is the number of records added, and each counter the number with that decision.
pub add_all-history :
    (now : ℕ) (c : ℤ) (es : List Entry)
    → Tracks
        (if is_pos c then pos_part c else default_capacity)
        (add_all es (new_log now c))
        (history es [])
add_all-history now c es = add_all-Tracks es _ (new_log-Tracks now c)
