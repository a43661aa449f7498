-- ===== src/Decisions/Scan.antt =====
-- `scan` of internal/application/decisions/log.go against a plain filter of the retained records.
use promptshield_beta.Decisions.{
  Record, Log, Query, slot, scan_from, rejects, reached, start_of, scan,
}
use promptshield_beta.Base.{
  Bool, List, ◌∷◌, if◌then◌else◌, ◌&&◌, ◌||◌, take, not, ℕ, [], ltb, length, ◌≡◌, ◌<◌, false, ◌++◌,
  ◌-◌, sym, append-nil, suc, zero, arith, length-append, append_assoc, ◌≤◌, ◌+◌, refl, true, dec_lt,
  ◌∙◌, ap₂,
}
use promptshield_beta.Base.Int.{ℤ, is_pos, pos_part, pos, negsuc}
use promptshield_beta.Decisions.Refine.{window, retained}
use promptshield_beta.Decisions.Inv.{IsValid}

-- The query sets `Before`, and the record is not older than that.
unfoldable pub too_new : Query → Record → Bool
too_new q r = is_pos q.before && not (ltb r.seq (pos_part q.before))

-- The records with the query's outcome, in order.
unfoldable pub kept : Query → List Record → List Record
kept q [] = []
kept q (r ∷ rs) = let rest = kept q rs in if rejects q r then rest else r ∷ rest

-- Those that are older than `Before` as well.
unfoldable pub select : Query → List Record → List Record
select q [] = []
select q (r ∷ rs) = let rest = select q rs in if too_new q r || rejects q r then rest else r ∷ rest

-- The first `limit` records, or all where the limit is zero or less.
unfoldable pub take_limit : ℤ → List Record → List Record
take_limit limit rs = if is_pos limit then take (pos_part limit) rs else rs

take-cons : (n : ℕ) (r : Record) (rs : List Record) → 0 < n → take n (r ∷ rs) ≡ r ∷ take (n - 1) rs
take-cons zero r rs h = elim h [ ]
take-cons (suc n) r rs h = let e : suc n - 1 ≡ n = omega arith in rw e

scan_from-limited :
    (l : Log) (q : Query) (k n i : ℕ) (out : List Record)
    → length out < k
    → scan_from l q (pos k) n i out ≡ out ++ take (k - length out) (kept q (window l n i))
unfolding scan_from window kept reached
scan_from-limited l q k zero i out h = take-nil (k - length out) out
  where
    take-nil : (m : ℕ) (rs : List Record) → rs ≡ rs ++ take m []
    take-nil zero rs = sym (append-nil rs)
    take-nil (suc m) rs = sym (append-nil rs)
scan_from-limited l q k (suc n) i out h =
    let r = slot l i in
    let rest = kept q (window l n (suc i)) in
    let out' = out ++ r ∷ [] in
    ground (
      arith,
      scan_from-limited l q k n (suc i) out h,
      scan_from-limited l q k n (suc i) out',
      length-append out (r ∷ []),
      append_assoc out (r ∷ []) (take (k - length out - 1) rest),
      take-cons (k - length out) r rest,
    )

scan_from-all :
    (l : Log) (q : Query) (limit : ℤ) (n i : ℕ) (out : List Record)
    → is_pos limit ≡ false
    → scan_from l q limit n i out ≡ out ++ kept q (window l n i)
unfolding scan_from window kept reached
scan_from-all l q limit zero i out h = sym (append-nil out)
scan_from-all l q limit (suc n) i out h =
    let r = slot l i in
    ground (
      arith,
      scan_from-all l q limit n (suc i) out h,
      scan_from-all l q limit n (suc i) (out ++ r ∷ []) h,
      append_assoc out (r ∷ []) (kept q (window l n (suc i))),
    )

start_of-pos : (l : Log) (q : Query) → 0 < start_of l q
unfolding start_of
start_of-pos l q = ground arith

-- From the start offset on, every record is older than `Before`.
late-not_too_new :
    (l : Log) (q : Query) (i : ℕ)
    → IsValid l
    → start_of l q ≤ i
    → i ≤ l.size
    → too_new q (slot l i) ≡ false
late-not_too_new l q i v h b =
    let p : 0 < i = omega (arith, start_of-pos l q) in
    unfold too_new start_of in ground (arith, v.seqs i p b)

-- Before it, none is.
early-too_new :
    (l : Log) (q : Query) (i : ℕ)
    → IsValid l
    → 0 < i
    → i < start_of l q
    → i ≤ l.size
    → too_new q (slot l i) ≡ true
unfolding too_new start_of
early-too_new l q i v p h b = ground (arith, v.seqs i p b, v.size_le_total)

select-window_late :
    (l : Log) (q : Query) (n i : ℕ)
    → IsValid l
    → start_of l q ≤ i
    → i + n ≤ l.size + 1
    → select q (window l n i) ≡ kept q (window l n i)
unfolding select kept window
select-window_late l q zero i v h b = refl
select-window_late l q (suc n) i v h b = ground (
  arith,
  select-window_late l q n (suc i) v (omega arith) (omega arith),
  late-not_too_new l q i v h (omega arith),
)

select-window_skip :
    (l : Log) (q : Query) (n i : ℕ)
    → too_new q (slot l i) ≡ true
    → select q (window l (suc n) i) ≡ select q (window l n (suc i))
unfolding select window
select-window_skip l q n i h = rw h

select-window :
    (l : Log) (q : Query) (n i : ℕ)
    → IsValid l
    → 0 < i
    → i + n ≡ l.size + 1
    → i ≤ start_of l q
    → select q (window l n i) ≡ kept q (window l (l.size + 1 - start_of l q) (start_of l q))
select-window l q zero i v p b h =
    let e : l.size + 1 - start_of l q ≡ 0 = omega arith in unfold select kept window in simp e
select-window l q (suc n) i v p b h = elim (dec_lt i (start_of l q)) [
  | yes k ↦
      select-window_skip l q n i (early-too_new l q i v p k (omega arith))
      ∙ select-window l q n (suc i) v (omega arith) (omega arith) k
  | no k ↦
      let e : start_of l q ≡ i = omega arith in
      let f : l.size + 1 - start_of l q ≡ suc n = omega arith in
      select-window_late l q (suc n) i v (omega arith) (omega arith)
      ∙ ap₂ (λ m j. kept q (window l m j)) (sym f) (sym e)
]

-- On a valid log `scan` returns the first `limit` of the retained records, newest first, that
-- have the query's outcome and, where `Before` is set, a sequence number below it; all of them
-- when the limit is zero or less.
pub scan-select :
    (l : Log) (q : Query) (limit : ℤ)
    → IsValid l
    → scan l q limit ≡ take_limit limit (select q (retained l))
unfolding scan take_limit retained
scan-select l q limit v =
    rw (select-window l q l.size 1 v (omega arith) (omega arith) (start_of-pos l q))
      (by_limit limit)
  where
    by_limit :
        (limit : ℤ)
        → scan_from l q limit (l.size + 1 - start_of l q) (start_of l q) [] ≡ (
            if is_pos limit
            then take
                (pos_part limit)
                (kept q (window l (l.size + 1 - start_of l q) (start_of l q)))
            else kept q (window l (l.size + 1 - start_of l q) (start_of l q)))
    by_limit (pos zero) = scan_from-all l q (pos 0) _ _ [] refl
    by_limit (pos (suc k)) = ground (
      arith,
      scan_from-limited l q (suc k) (l.size + 1 - start_of l q) (start_of l q) [] (omega arith),
    )
    by_limit (negsuc k) = scan_from-all l q (negsuc k) _ _ [] refl
