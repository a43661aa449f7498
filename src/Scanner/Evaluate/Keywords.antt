-- ===== src/Scanner/Evaluate/Keywords.antt =====
-- `evalKeywords` of internal/scanner/evaluate.go.
use promptshield_beta.Scanner.Evaluate.{
  State, line_key, is_whole, is_seen, report, index, CompiledRule, full, plain, Hit,
}
use promptshield_beta.Base.{
  Option, Bool, List, ℕ, ◌++◌, some, true, false, none, ◌+◌, if◌then◌else◌, ◌∷◌, [], ◌&&◌, ◌||◌,
  not, length, ◌==◌,
}
use promptshield_beta.Base.Text.{Str, bytes}
use promptshield_beta.Base.Decimal.{decimal}

-- What the loop over the matcher's hits carries; `stopped` tells that it returned early.
pub record HitWalk : Type 0 where
  pub state : State
  pub found : List Str
  pub first : Option ℕ
  pub any : Bool
  pub stopped : Bool

-- "id|line|kw|keyword|index" and "id|line|kw|all"
unfoldable pub keyword_key : CompiledRule → ℕ → Str → ℕ → Str
unfolding line_key
keyword_key cr line kw idx = line_key cr line ++ bytes "|kw|" ++ kw ++ b'|' ∷ decimal idx

unfoldable pub all_key : CompiledRule → ℕ → Str
unfolding line_key
all_key cr line = line_key cr line ++ bytes "|kw|all"

unfoldable pub first_of : Option ℕ → ℕ → Option ℕ
first_of none idx = some idx
first_of (some i) idx = some i

-- `firstIdx + 1`, or 1
unfoldable pub column_of : Option ℕ → ℕ
column_of none = 1
column_of (some i) = i + 1

-- `found[kw] = idx` and `firstIdx`, where the keyword is new.
unfoldable pub note_hit : Str → ℕ → HitWalk → HitWalk
unfolding is_seen first_of
note_hit kw idx w =
    if is_seen kw w.found
    then w
    else record w { found = kw ∷ w.found; first = first_of w.first idx }

-- What follows a report: `any`, and the early return.
unfoldable pub after_report : Bool → State × Bool → HitWalk → HitWalk
after_report first_match res w =
    if res.1 then record w { state = res.0; any = true; stopped = first_match } else w

-- The body of the loop over the hits.
unfoldable pub on_hit : Bool → CompiledRule → Str → ℕ → Hit → HitWalk → HitWalk
unfolding is_whole note_hit after_report report keyword_key full
on_hit first_match cr lower line (kw, idx) w =
    let noted = note_hit kw idx w in
    let res = report (keyword_key cr line kw idx) (full cr line (idx + 1)) noted.state in
    if cr.whole_word && not (is_whole lower idx (length kw))
    then w
    else if cr.require_all
    then noted
    else after_report first_match res noted

unfoldable pub hit_loop : Bool → CompiledRule → Str → ℕ → List Hit → HitWalk → HitWalk
unfolding on_hit
hit_loop first_match cr lower line [] w = w
hit_loop first_match cr lower line (hit ∷ hits) w =
    let w' = on_hit first_match cr lower line hit w in
    elim w'.stopped [ true ↦ w' | false ↦ hit_loop first_match cr lower line hits w' ]

unfoldable pub all_seen : List Str → List Str → Bool
unfolding is_seen
all_seen [] found = true
all_seen (kw ∷ kws) found = is_seen kw found && all_seen kws found

-- The branch with the matcher's hits.
unfoldable pub eval_hits : Bool → CompiledRule → Str → ℕ → List Hit → State → State × Bool
unfolding hit_loop all_seen all_key column_of report full
eval_hits first_match cr lower line hits st =
    let w =
      hit_loop first_match cr lower line hits
        (record { state = st; found = []; first = none; any = false; stopped = false }) in
    let res = report (all_key cr line) (full cr line (column_of w.first)) w.state in
    if w.stopped
    then (w.state, true)
    else if cr.require_all && not (length cr.keywords == 0) && all_seen cr.keywords w.found
    then (res.0, w.any || res.1)
    else (w.state, w.any)

-- The first occurrence of a keyword, if it may count.
unfoldable pub occurrence : CompiledRule → Str → Str → Option ℕ
unfolding index is_whole
occurrence cr hay kw = elim (index hay kw) [
  | none ↦ none
  | some idx ↦ if cr.whole_word && not (is_whole hay idx (length kw)) then none else some idx
]

-- The loop that requires all keywords: the first index, or none where one is missing.
unfoldable pub require_loop : CompiledRule → Str → List Str → Option ℕ → Option (Option ℕ)
unfolding occurrence first_of
require_loop cr hay [] first = some first
require_loop cr hay (kw ∷ kws) first = elim (occurrence cr hay kw) [
  | none ↦ none
  | some idx ↦ require_loop cr hay kws (first_of first idx)
]

unfoldable pub keyword_loop : CompiledRule → Str → ℕ → List Str → State → State × Bool
unfolding occurrence report keyword_key full
keyword_loop cr hay line [] st = (st, false)
keyword_loop cr hay line (kw ∷ kws) st = elim (occurrence cr hay kw) [
  | none ↦ keyword_loop cr hay line kws st
  | some idx ↦
      let res = report (keyword_key cr line kw idx) (full cr line (idx + 1)) st in
      let rest = keyword_loop cr hay line kws res.0 in (rest.0, res.1 || rest.1)
]

-- The branches without hits.
unfoldable pub eval_plain : CompiledRule → Str → ℕ → State → State × Bool
unfolding require_loop keyword_loop report all_key plain column_of
eval_plain cr hay line st =
    let required = elim (require_loop cr hay cr.keywords none) as (λ x. State × Bool) [
      | none ↦ (st, false)
      | some first ↦ report (all_key cr line) (plain cr line (column_of first)) st
    ] in
    if cr.require_all && not (length cr.keywords == 0)
    then required
    else keyword_loop cr hay line cr.keywords st

-- `hits` is none where there is no matcher.
unfoldable pub eval_keywords :
    Bool → Option (List Hit) → CompiledRule → Str → Str → ℕ → State → State × Bool
unfolding eval_hits eval_plain
eval_keywords first_match hits cr lower text line st =
    let without = eval_plain cr (if cr.case_sensitive then text else lower) line st in
    elim hits [
      | none ↦ without
      | some hs ↦
          if not cr.case_sensitive && not (length hs == 0)
          then eval_hits first_match cr lower line hs st
          else without
    ]
