-- ===== src/Decisions.antt =====
-- internal/application/decisions: the bounded in-memory log of enforcement decisions
-- (record.go, log.go, page.go, capacity.go). Every method holds the mutex while it runs, so a
-- method is one function on the state. The clock is an argument, `now`; the time 0 stands for
-- `time.Time{}`. Latencies are only stored and ordered, so a number stands for a `float64`.
pub mod Inv
pub mod Refine
pub mod Scan
pub mod Paging
pub mod Listing
pub mod Summary
pub mod Capacity
pub mod Matches
mod Tests
use promptshield_beta.Base.{
  ℕ, zero, suc, ◌+◌, ◌-◌, ◌*◌, ◌/◌, ◌%◌, ◌≡◌, Bool, true, false, not, ◌&&◌, ◌||◌, Option, none,
  some, List, [], ◌∷◌, ◌++◌, length, get_or, set, take, replicate, ltb, leb, ◌==◌, max,
  if◌then◌else◌,
}
use promptshield_beta.Base.Int.{ℤ, pos, negsuc, pos_part, neg_part, is_pos, sub_ℕ, suc_int64}
use promptshield_beta.Base.Text.{Str, bytes, same}
use promptshield_beta.Base.Map.{Map, lookup, insert}

abbrev pub allow : Str
allow = bytes "allow"

abbrev pub deny : Str
deny = bytes "deny"

abbrev pub quarantine : Str
quarantine = bytes "quarantine"

pub record Match : Type 0 where
  pub rule_id : Str
  pub severity : Str
  pub category : Str
  pub action : Str
  pub message : Str

pub record Record : Type 0 where
  pub seq : ℕ
  pub request_id : Str
  pub time : ℕ
  pub path : Str
  pub decision : Str
  pub reason : Str
  pub status : ℕ
  pub latency_ms : ℕ
  pub bytes_in : ℕ
  pub violations : ℕ
  pub matches : List Match

-- `Record{}`
abbrev pub zero_record : Record
zero_record = record {
  seq = 0;
  request_id = [];
  time = 0;
  path = [];
  decision = [];
  reason = [];
  status = 0;
  latency_ms = 0;
  bytes_in = 0;
  violations = 0;
  matches = [];
}

pub record Query : Type 0 where
  pub limit : ℤ
  pub decision : Str
  pub before : ℤ

-- The counters `total` and `counts` grow by one for each decision and are left unbounded.
pub record Log : Type 0 where
  pub buf : List Record
  pub next : ℕ
  pub size : ℕ
  pub total : ℕ
  pub counts : Map ℕ
  pub started : ℕ

abbrev pub default_capacity : ℕ
default_capacity = 500

unfoldable pub new_log : ℕ → ℤ → Log
new_log now capacity =
    let n = if is_pos capacity then pos_part capacity else default_capacity in
    record {
      buf = replicate n zero_record;
      next = 0;
      size = 0;
      total = 0;
      counts = (allow, 0) ∷ (deny, 0) ∷ (quarantine, 0) ∷ [];
      started = now;
    }

-- `counts[d]++`: a missing key counts as 0.
unfoldable pub count_of : Str → Map ℕ → ℕ
count_of d counts = elim (lookup d counts) [ none ↦ 0 | some n ↦ n ]

unfoldable pub bump : Str → Map ℕ → Map ℕ
bump d counts = insert d (count_of d counts + 1) counts

-- The record as `Add` stores it.
unfoldable pub stamp : ℕ → ℕ → Record → Record
stamp now seq r = record r { time = if r.time == 0 then now else r.time; seq = seq }

unfoldable pub add : ℕ → Record → Log → Log
unfolding stamp bump
add now r l = record l {
  total = l.total + 1;
  buf = set l.buf l.next (stamp now (l.total + 1) r);
  next = (l.next + 1) % length l.buf;
  size = if ltb l.size (length l.buf) then l.size + 1 else l.size;
  counts = bump r.decision l.counts;
}

-- `l.buf[(l.next-i+len(l.buf))%len(l.buf)]`, at `i ≤ len(l.buf)`, where the sum is not negative.
unfoldable pub slot : Log → ℕ → Record
slot l i = get_or l.buf ((l.next + length l.buf - i) % length l.buf) zero_record

-- `q.Decision != "" && r.Decision != q.Decision`
unfoldable pub rejects : Query → Record → Bool
rejects q r = not (same q.decision []) && not (same r.decision q.decision)

-- `limit > 0 && len(out) == limit`
unfoldable pub reached : ℤ → ℕ → Bool
reached limit n = is_pos limit && n == pos_part limit

-- The loop of `scan`: `n` rounds are left, from offset `i`, with `out` collected.
unfoldable pub scan_from : Log → Query → ℤ → ℕ → ℕ → List Record → List Record
scan_from l q limit zero i out = out
scan_from l q limit (suc n) i out =
    let r = slot l i in
    let skip = scan_from l q limit n (suc i) out in
    let out' = out ++ (r ∷ []) in
    let more = scan_from l q limit n (suc i) out' in
    if rejects q r then skip else if reached limit (length out') then out' else more

-- `max(1, int(l.total-q.Before+2))`; the difference of two `int64` that are not negative, plus
-- two, does not wrap as long as `total` is below its largest value.
unfoldable pub start_of : Log → Query → ℕ
start_of l q =
    if is_pos q.before then max 1 (pos_part (sub_ℕ (l.total + 2) (pos_part q.before))) else 1

unfoldable pub scan : Log → Query → ℤ → List Record
unfolding scan_from
scan l q limit = scan_from l q limit (l.size + 1 - start_of l q) (start_of l q) []

unfoldable pub recent : Log → Query → List Record
recent l q = scan l q q.limit

-- The first record of a list with the request id.
unfoldable pub find_id : Str → List Record → Option Record
find_id id [] = none
find_id id (r ∷ rs) = if same r.request_id id then some r else find_id id rs

abbrev pub all_query : Query
all_query = record { limit = pos 0; decision = []; before = pos 0 }

unfoldable pub get : Log → Str → Option Record
get l id = find_id id (recent l all_query)

pub record Page : Type 0 where
  pub records : List Record
  pub next : ℕ

-- `records[len(records)-1].Seq`
unfoldable pub last_seq : List Record → ℕ
last_seq [] = 0
last_seq (r ∷ []) = r.seq
last_seq (r ∷ s ∷ rs) = last_seq (s ∷ rs)

-- `q.Limit+1` wraps at the largest `int`.
unfoldable pub page : Log → Query → Page
page l q =
    let found = scan l q (suc_int64 q.limit) in
    let n = pos_part q.limit in
    if not (is_pos q.limit)
    then record { records = recent l q; next = 0 }
    else if leb (length found) n
    then record { records = found; next = 0 }
    else record { records = take n found; next = last_seq (take n found) }
