-- ===== src/Decisions/Capacity.antt =====
-- `ParseCapacity` and `NewLogFromEnv` of internal/application/decisions/capacity.go. The value of
-- the environment variable is an argument.
use promptshield_beta.Decisions.{Log, new_log, default_capacity}
use promptshield_beta.Base.{
  ℕ, Option, ◌≤◌, ◌≢◌, some, none, if◌then◌else◌, ◌≡◌, ltb, arith, ◌||◌, leb, [], ◌&&◌,
}
use promptshield_beta.Base.Text.{Str, same, same_iff}
use promptshield_beta.Base.Int.{ℤ, pos, max_int64, negsuc}
use promptshield_beta.Base.Decimal.{
  trim_space, decimal, atoi, trim_space-decimal, atoi-decimal, decimal-ne-nil,
}

abbrev pub min_capacity : ℕ
min_capacity = 10

abbrev pub max_capacity : ℕ
max_capacity = 50000

pub data CapacityError : Type 0 where
  not_integer : Str → CapacityError
  outside : ℤ → CapacityError

-- The capacity is returned beside the error.
unfoldable pub check_capacity : ℤ → ℕ × Option CapacityError
check_capacity (negsuc n) = (default_capacity, some (outside (negsuc n)))
check_capacity (pos n) =
    if ltb n min_capacity || ltb max_capacity n
    then (default_capacity, some (outside (pos n)))
    else (n, none)

unfoldable pub parse_capacity : Str → ℕ × Option CapacityError
unfolding check_capacity
parse_capacity raw =
    let text = trim_space raw in
    if same text [] then (default_capacity, none) else elim (atoi text) [
      | none ↦ (default_capacity, some (not_integer text))
      | some n ↦ check_capacity n
    ]

-- An error is logged and the default is used.
unfoldable pub new_log_from_env : ℕ → Str → Log
new_log_from_env now raw = new_log now (pos (parse_capacity raw).0)

-- Whatever the text, the capacity is in the accepted range; where there is an error it is the
-- default.
pub parse_capacity_bounds :
    (raw : Str)
    → (min_capacity ≤ (parse_capacity raw).0)
      × ((parse_capacity raw).0 ≤ max_capacity)
      × ((parse_capacity raw).1 ≢ none → (parse_capacity raw).0 ≡ default_capacity)
unfolding parse_capacity
parse_capacity_bounds raw = (ground arith, ground arith, ground arith)

-- The decimal text of a number up to the largest `int64` is accepted exactly when the number is in
-- the range, and then gives the number; else the default and the error that names the number are
-- returned.
pub parse_capacity-decimal :
    (n : ℕ)
    → n ≤ max_int64
    → parse_capacity (decimal n) ≡ (
        if leb min_capacity n && leb n max_capacity
        then (n, none)
        else (default_capacity, some (outside (pos n))))
unfolding parse_capacity
parse_capacity-decimal n h =
    ground
      (arith, trim_space-decimal n, atoi-decimal n h, same_iff (decimal n) [], decimal-ne-nil n)
