-- ===== src/Decisions/Matches.antt =====
-- internal/application/decisions/record.go: the matches of a record from the scanner's violations,
-- and the record as the data of an event.
use promptshield_beta.Decisions.{Match, Record}
use promptshield_beta.Scanner.Evaluate.{Violation}
use promptshield_beta.Base.Text.{Str, bytes, same, same_iff}
use promptshield_beta.Base.{
  List, [], ◌∷◌, map, ℕ, if◌then◌else◌, ◌≡◌, ◌++◌, ◌≢◌, ◌⊎◌, arith, sym, append-nil, ◌∙◌,
  append_assoc,
}

unfoldable pub first_non_empty : List Str → Str
first_non_empty [] = []
first_non_empty (v ∷ vs) = let rest = first_non_empty vs in if same v [] then rest else v

unfoldable pub match_from : Violation → Match
unfolding first_non_empty
match_from v = record {
  rule_id = v.rule_id;
  severity = v.severity;
  category = v.category;
  action = v.response_action;
  message = first_non_empty (v.response_message ∷ v.message ∷ []);
}

-- The loop.
unfoldable pub matches_loop : List Violation → List Match → List Match
unfolding match_from
matches_loop [] out = out
matches_loop (v ∷ vs) out = matches_loop vs (out ++ match_from v ∷ [])

unfoldable pub matches_from : List Violation → List Match
unfolding matches_loop
matches_from vs = matches_loop vs []

-- One value of an event's data.
pub data Value : Type 0 where
  text : Str → Value
  number : ℕ → Value
  matches_value : List Match → Value

-- The payload; `format` writes a time as RFC 3339.
unfoldable pub event_data : (ℕ → Str) → Record → List (Str × Value)
event_data format r =
    (bytes "seq", number r.seq)
    ∷ (bytes "request_id", text r.request_id)
    ∷ (bytes "time", text (format r.time))
    ∷ (bytes "path", text r.path)
    ∷ (bytes "decision", text r.decision)
    ∷ (bytes "reason", text r.reason)
    ∷ (bytes "status", number r.status)
    ∷ (bytes "latency_ms", number r.latency_ms)
    ∷ (bytes "bytes_in", number r.bytes_in)
    ∷ (bytes "violations", number r.violations)
    ∷ (bytes "matches", matches_value r.matches)
    ∷ []

-- A rule that fires with a message of its own or of its response is shown with a message.
abbrev HasText : Violation → Type 0
HasText v = (v.response_message ≢ []) ⊎ (v.message ≢ [])

match_from-message : (v : Violation) → HasText v → (match_from v).message ≢ []
unfolding match_from first_non_empty
match_from-message v h = ground (arith, h, same_iff v.response_message [], same_iff v.message [])

matches_loop-map :
    (vs : List Violation) (out : List Match) → matches_loop vs out ≡ out ++ map match_from vs
unfolding matches_loop
matches_loop-map [] out = sym (append-nil out)
matches_loop-map (v ∷ vs) out =
    matches_loop-map vs (out ++ match_from v ∷ [])
    ∙ append_assoc out (match_from v ∷ []) (map match_from vs)

-- There is one match for each violation, in order.
matches_from_lem : (vs : List Violation) → matches_from vs ≡ map match_from vs
unfolding matches_from
matches_from_lem vs = matches_loop-map vs []
