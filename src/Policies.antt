-- ===== src/Policies.antt =====
-- internal/infrastructure/persistence/memory/policy_repository.go: the policy repository in
-- memory. A method runs under the lock, so it is one function of the state. An id is the text of a
-- uuid, and a policy is stored and returned by value. The order of the map's list is the order in
-- which `range` meets the policies.
pub mod Contains
pub mod Store
pub mod Listing
mod Tests
use promptshield_beta.Base.Text.{Str, bytes, same}
use promptshield_beta.Base.{
  Option, Bool, ℕ, if◌then◌else◌, ◌⊎◌, none, true, List, false, length, leb, ◌∷◌, inl, ◌+◌, ◌&&◌,
  some, [], suc, inr, ltb, take, ◌-◌, ◌||◌, drop, zero,
}
use promptshield_beta.Base.Map.{Map, is_some, lookup, insert, remove}
use promptshield_beta.Base.Int.{ℤ, pos, is_pos, ltb_int, pos_part}

pub record Policy : Type 0 where
  pub id : Str
  pub name : Str
  pub version : ℤ
  pub content : Str
  pub policy_type : Str
  pub created_by : Option Str
  pub created_at : ℤ
  pub updated_at : ℤ

pub data PolicyError : Type 0 where
  policy_exists : Str → PolicyError
  policy_not_found : Str → PolicyError
  policy_name_not_found : Str → PolicyError

-- The keys of the filter map that the code reads, absent or of another type as none.
pub record Filter : Type 0 where
  pub policy_type : Option Str
  pub name : Option Str
  pub limit : Option ℤ

-- NewPolicyRepository, with the built-in rule pack's text and the times of a day and an hour ago.
unfoldable pub new_repository : Str → ℤ → ℤ → Map Policy
new_repository builtin_content day_ago hour_ago =
    let builtin : Policy = record {
      id = bytes "550e8400-e29b-41d4-a716-446655440000";
      name = bytes "Prompt Injection Detection";
      version = pos 1;
      content = builtin_content;
      policy_type = bytes "builtin";
      created_by = none;
      created_at = day_ago;
      updated_at = hour_ago;
    } in
    insert builtin.id builtin []

unfoldable pub create : Policy → Map Policy → Option PolicyError × Map Policy
create policy r =
    if is_some (lookup policy.id r)
    then (some (policy_exists policy.id), r)
    else (none, insert policy.id policy r)

unfoldable pub get : Str → Map Policy → PolicyError ⊎ Policy
get id r = elim (lookup id r) [ none ↦ inl (policy_not_found id) | some policy ↦ inr policy ]

unfoldable pub update : Policy → Map Policy → Option PolicyError × Map Policy
update policy r =
    if is_some (lookup policy.id r)
    then (none, insert policy.id policy r)
    else (some (policy_not_found policy.id), r)

unfoldable pub delete : Str → Map Policy → Option PolicyError × Map Policy
delete id r = if is_some (lookup id r) then (none, remove id r) else (some (policy_not_found id), r)

unfoldable pub find_by_name : Str → Map Policy → Option Policy
find_by_name name [] = none
find_by_name name ((k, p) ∷ m) = if same p.name name then some p else find_by_name name m

unfoldable pub get_by_name : Str → Map Policy → PolicyError ⊎ Policy
unfolding find_by_name
get_by_name name r = elim (find_by_name name r) [
  | none ↦ inl (policy_name_not_found name)
  | some policy ↦ inr policy
]

-- `policyType == nil || policy.Type == *policyType`
unfoldable pub has_type : Option Str → Policy → Bool
has_type none p = true
has_type (some t) p = same p.policy_type t

-- The loop that collects what passes a test.
unfoldable pub collect : (Policy → Bool) → Map Policy → List Policy
collect p [] = []
collect p ((k, policy) ∷ m) = let rest = collect p m in if p policy then policy ∷ rest else rest

-- result[offset:] where the offset is in range, then result[:limit].
unfoldable pub paginate : ℤ → ℤ → List Policy → List Policy
paginate offset limit result =
    let from =
      if is_pos offset && ltb (pos_part offset) (length result)
      then drop (pos_part offset) result
      else result in
    if is_pos limit && ltb (pos_part limit) (length from) then take (pos_part limit) from else from

unfoldable pub list : Option Str → ℤ → ℤ → Map Policy → List Policy × ℕ
unfolding collect has_type paginate
list policy_type offset limit r =
    let result = collect (has_type policy_type) r in (paginate offset limit result, length result)

unfoldable pub is_later : Policy → Option Policy → Bool
is_later p none = true
is_later p (some latest) = ltb_int latest.version p.version

unfoldable pub latest_loop : Str → Map Policy → Option Policy → Option Policy
unfolding is_later
latest_loop name [] latest = latest
latest_loop name ((k, p) ∷ m) latest =
    latest_loop name m (if same p.name name && is_later p latest then some p else latest)

unfoldable pub get_latest_version : Str → Map Policy → PolicyError ⊎ Policy
unfolding latest_loop
get_latest_version name r = elim (latest_loop name r none) [
  | none ↦ inl (policy_name_not_found name)
  | some policy ↦ inr policy
]

-- s[i:i+len(substr)] == substr for the i that the loop has left, `rounds` of them.
unfoldable pub find_from : ℕ → Str → Str → Bool
find_from zero s sub = false
find_from (suc rounds) [] sub = same [] sub
find_from (suc rounds) (c ∷ s) sub = same (take (length sub) (c ∷ s)) sub || find_from rounds s sub

-- The loop runs for i from 0 to len(s)-len(substr).
unfoldable pub find_in_string : Str → Str → Bool
unfolding find_from
find_in_string s sub = find_from (length s + 1 - length sub) s sub

unfoldable pub contains : Str → Str → Bool
unfolding find_in_string
contains s sub =
    leb (length sub) (length s)
    && (same s sub
        || ltb (length sub) (length s)
          && (same (take (length sub) s) sub
              || same (drop (length s - length sub) s) sub
              || find_in_string s sub))

unfoldable pub matches_filter : Filter → Policy → Bool
unfolding contains
matches_filter f policy =
    let right_type = elim f.policy_type as (λ x. Bool) [
      | none ↦ true
      | some t ↦ same policy.policy_type t
    ] in
    let right_name = elim f.name as (λ x. Bool) [
      | none ↦ true
      | some name ↦ same name [] || contains policy.name name
    ] in
    right_type && right_name

unfoldable pub list_with_filter : Filter → Map Policy → List Policy × ℕ
unfolding matches_filter collect
list_with_filter f r =
    let result = collect (matches_filter f) r in
    let limited = elim f.limit as (λ x. List Policy) [
      | none ↦ result
      | some limit ↦
          if is_pos limit && ltb (pos_part limit) (length result)
          then take (pos_part limit) result
          else result
    ] in
    (limited, length r)

-- The filter's one key, "active", is none of those that are read.
unfoldable pub get_active : Map Policy → List Policy
unfolding list_with_filter
get_active r = (list_with_filter (record { policy_type = none; name = none; limit = none }) r).0
