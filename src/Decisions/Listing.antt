-- ===== src/Decisions/Listing.antt =====
-- A client that pages through the log (internal/application/decisions/page.go) until no cursor
-- is returned, and what `Add` does to a listing in progress.
use promptshield_beta.Decisions.{Record, Log, Query, page, add, stamp, scan}
use promptshield_beta.Base.{
  ℕ, List, [], length, ◌≡◌, ◌<◌, suc, ◌++◌, true, arith, ◌≤◌, ◌∷◌, if◌then◌else◌, length-append,
  ◌==◌, ◌+◌, zero, inl, inr, ap, ◌∙◌, sym,
}
use promptshield_beta.Decisions.Scan.{select, too_new, scan-select, take_limit}
use promptshield_beta.Decisions.Paging.{matching, resume, page-matching, take_of_length-le}
use promptshield_beta.Decisions.Inv.{IsValid, add-IsValid}
use promptshield_beta.Base.Int.{pos, max_int64, ℤ, suc_int64}
use promptshield_beta.Decisions.Refine.{retained, length-window, retained-add}

-- The records of all the pages from the query on; `fuel` bounds the number of calls.
unfoldable pub pages : ℕ → Log → Query → List Record
pages zero l q = []
pages (suc fuel) l q =
    let p = page l q in
    let rest = p.records ++ pages fuel l (resume q p.next) in
    if p.next == 0 then p.records else rest

shorter :
    (xs ys zs : List Record) (k : ℕ) → length xs ≡ suc k → xs ++ ys ≡ zs → length ys < length zs
shorter xs ys zs k h e = rw (← e) (omega (arith, length-append xs ys))

-- On a valid log and with a positive limit, following the cursor visits every matching record
-- exactly once, newest first, in at most one call more than there are such records, as long as
-- fewer than 2^63 match.
pub pages-matching :
    (fuel : ℕ) (l : Log) (q : Query) (k : ℕ)
    → IsValid l
    → q.limit ≡ pos (suc k)
    → length (matching l q) ≤ max_int64
    → length (matching l q) < fuel
    → pages fuel l q ≡ matching l q
unfolding pages
pages-matching zero l q k v e b h = elim h [ ]
pages-matching (suc fuel) l q k v e b h = elim (page-matching l q k v e b) [
  | inl p ↦ ground (arith, p.0, p.1)
  | inr p ↦
      let fewer : length (matching l (resume q (page l q).next)) < length (matching l q) =
        shorter (page l q).records _ (matching l q) k p.1 p.2 in
      ground (
        arith,
        p.0,
        p.2,
        pages-matching fuel l (resume q (page l q).next) k v e (omega arith) (omega arith),
      )
]

select-too_new :
    (q : Query) (r : Record) (rs : List Record)
    → too_new q r ≡ true
    → select q (r ∷ rs) ≡ select q rs
unfolding select
select-too_new q r rs h = rw h

-- While the log is not full, a record added between two calls of a listing does not change what
-- the next call returns.
pub matching-add :
    (now : ℕ) (r : Record) (l : Log) (q : Query) (b : ℕ)
    → IsValid l
    → l.size < length l.buf
    → q.before ≡ pos (suc b)
    → b ≤ l.total
    → matching (add now r l) q ≡ matching l q
unfolding matching
matching-add now r l q b v h e k =
    ap (select q) (retained-add now r l v ∙ take_of_length-le (length l.buf) all fits)
    ∙ select-too_new q (stamp now (l.total + 1) r) (retained l) newer
  where
    all : List Record
    all = stamp now (l.total + 1) r ∷ retained l

    fits : length all ≤ length l.buf
    fits = unfold retained in omega (arith, length-window l l.size 1)

    newer : too_new q (stamp now (l.total + 1) r) ≡ true
    newer = unfold too_new stamp in ground (arith, e)

-- While the ring is not full, adding a record does not change the page, with a positive limit, of a
-- query whose cursor is at most one above the number of records added so far.
pub page-add :
    (now : ℕ) (r : Record) (l : Log) (q : Query) (b k : ℕ)
    → IsValid l
    → l.size < length l.buf
    → q.before ≡ pos (suc b)
    → b ≤ l.total
    → q.limit ≡ pos (suc k)
    → page (add now r l) q ≡ page l q
unfolding page
page-add now r l q b k v h e g m = ground (arith, same_scan (suc_int64 q.limit))
  where
    unchanged : select q (retained (add now r l)) ≡ select q (retained l)
    unchanged = unfold matching in matching-add now r l q b v h e g

    same_scan : (limit : ℤ) → scan (add now r l) q limit ≡ scan l q limit
    same_scan limit =
        scan-select (add now r l) q limit (add-IsValid now r l v)
        ∙ ap (take_limit limit) unchanged
        ∙ sym (scan-select l q limit v)
