-- ===== src/Decisions/Tests.antt =====
-- Runs of the decision log on a small ring, and the theorems at them.
use promptshield_beta.Base.Text.{Str, bytes, same}
use promptshield_beta.Base.{List, if◌then◌else◌, ◌≡◌, [], ◌∷◌, arith, length, refl}
use promptshield_beta.Decisions.Inv.{IsValid}
use promptshield_beta.Decisions.{
  Log, Query, scan, Record, new_log, add, zero_record, stamp, deny, bump, allow, rejects, count_of,
  default_capacity, slot,
}
use promptshield_beta.Decisions.Paging.{matching}
use promptshield_beta.Decisions.Refine.{
  add_all, Tracks, Entry, add_all-history, retained, window, history,
}
use promptshield_beta.Decisions.Listing.{pages, pages-matching}
use promptshield_beta.Base.Int.{pos, is_pos, pos_part}
use promptshield_beta.Decisions.Scan.{select, kept, take_limit, too_new, scan-select}

-- A denied request.
abbrev denied : Str → Record
denied id = record zero_record { request_id = id; decision = deny }

abbrev entries : List Entry
entries =
    (5, denied (bytes "a"))
    ∷ (6, record (denied (bytes "b")) { decision = allow })
    ∷ (7, denied (bytes "c"))
    ∷ []

-- A ring of two records after three were added.
abbrev full_log : Log
full_log = add_all entries (new_log 1 (pos 2))

abbrev one_page : Query
one_page = record { limit = pos 1; decision = []; before = pos 0 }

full_log-IsValid : IsValid full_log
full_log-IsValid = (add_all-history 1 (pos 2) entries).valid

full_log-matching : length (matching full_log one_page) ≡ 2
unfolding matching select kept too_new rejects retained window slot add_all add new_log stamp bump
    count_of same
full_log-matching = refl

add_all-history_example :
    Tracks
      (if is_pos (pos 2) then pos_part (pos 2) else default_capacity)
      (add_all entries (new_log 1 (pos 2)))
      (history entries [])
add_all-history_example = add_all-history 1 (pos 2) entries

scan-select_example :
    scan full_log one_page (pos 1) ≡ take_limit (pos 1) (select one_page (retained full_log))
scan-select_example = scan-select full_log one_page (pos 1) full_log-IsValid

pages-matching_example : pages 3 full_log one_page ≡ matching full_log one_page
pages-matching_example =
    pages-matching 3 full_log one_page 0 full_log-IsValid refl (rw full_log-matching (omega arith))
      (rw full_log-matching (omega arith))
