-- ===== src/Policies/Store.antt =====
-- `Create`, `Get`, `Update` and `Delete` of
-- internal/infrastructure/persistence/memory/policy_repository.go against a partial function.
use promptshield_beta.Policies.{
  Policy, PolicyError, create, delete, get, policy_exists, policy_not_found, update,
}
use promptshield_beta.Base.{
  Option, List, none, ◌∷◌, if◌then◌else◌, some, ◌⊎◌, ◌≡◌, inl, ap₂, [], arith, refl, inr,
}
use promptshield_beta.Base.Map.{Map, lookup, lookup-insert, lookup-remove}
use promptshield_beta.Base.Text.{Str, same}

pub data Op : Type 0 where
  create_op : Policy → Op
  get_op : Str → Op
  update_op : Policy → Op
  delete_op : Str → Op

-- The error that a call returns, or the policy that `Get` returns.
pub data Answer : Type 0 where
  done : Option PolicyError → Answer
  found : PolicyError ⊎ Policy → Answer

unfoldable pub call : Op → Map Policy → Answer × Map Policy
call (create_op p) r = let res = create p r in (done res.0, res.1)
call (get_op id) r = (found (get id r), r)
call (update_op p) r = let res = update p r in (done res.0, res.1)
call (delete_op id) r = let res = delete id r in (done res.0, res.1)

unfoldable pub answers : List Op → Map Policy → List Answer
unfolding call
answers [] r = []
answers (op ∷ ops) r = let res = call op r in res.0 ∷ answers ops res.1

-- What the repository stands for: the policy of each id.
abbrev pub Contents : Type 0
Contents = Str → Option Policy

unfoldable pub put : Str → Option Policy → Contents → Contents
put id o f j = if same id j then o else f j

-- The calls on the contents.
unfoldable pub spec_call : Op → Contents → Answer × Contents
unfolding put
spec_call (create_op p) f = elim (f p.id) [
  | none ↦ (done none, put p.id (some p) f)
  | some old ↦ (done (some (policy_exists p.id)), f)
]
spec_call (get_op id) f = elim (f id) [
  | none ↦ (found (inl (policy_not_found id)), f)
  | some p ↦ (found (inr p), f)
]
spec_call (update_op p) f = elim (f p.id) [
  | none ↦ (done (some (policy_not_found p.id)), f)
  | some old ↦ (done none, put p.id (some p) f)
]
spec_call (delete_op id) f = elim (f id) [
  | none ↦ (done (some (policy_not_found id)), f)
  | some old ↦ (done none, put id none f)
]

unfoldable pub spec_answers : List Op → Contents → List Answer
unfolding spec_call
spec_answers [] f = []
spec_answers (op ∷ ops) f = let res = spec_call op f in res.0 ∷ spec_answers ops res.1

call-spec :
    (op : Op) (r : Map Policy) (f : Contents)
    → ((j : Str) → lookup j r ≡ f j)
    → ((call op r).0 ≡ (spec_call op f).0)
      × ((j : Str) → lookup j (call op r).1 ≡ (spec_call op f).1 j)
unfolding call spec_call create get update delete put
call-spec (create_op p) r f h =
    (ground (arith, h p.id), λ j. ground (arith, h p.id, h j, lookup-insert p.id j p r))
call-spec (get_op id) r f h = (ground (arith, h id), λ j. ground (arith, h id, h j))
call-spec (update_op p) r f h =
    (ground (arith, h p.id), λ j. ground (arith, h p.id, h j, lookup-insert p.id j p r))
call-spec (delete_op id) r f h =
    (ground (arith, h id), λ j. ground (arith, h id, h j, lookup-remove id j r))

-- Every sequence of `Create`, `Get`, `Update` and `Delete` calls is answered, errors included, as
-- the partial function from ids to policies that the map stands for is, whatever the order of the
-- map's entries.
pub answers-refine :
    (ops : List Op) (r : Map Policy) (f : Contents)
    → ((j : Str) → lookup j r ≡ f j)
    → answers ops r ≡ spec_answers ops f
unfolding answers spec_answers
answers-refine [] r f h = refl
answers-refine (op ∷ ops) r f h =
    let step = call-spec op r f h in
    ap₂ ◌∷◌ step.0 (answers-refine ops (call op r).1 (spec_call op f).1 step.1)
