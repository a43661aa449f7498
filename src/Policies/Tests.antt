-- ===== src/Policies/Tests.antt =====
-- Calls on the policy repository, and the theorems at them.
use promptshield_beta.Base.Text.{Str, bytes, same}
use promptshield_beta.Base.Map.{Map, lookup}
use promptshield_beta.Base.{
  List, ◌≡◌, some, ◌∷◌, true, [], length, ◌↔◌, none, ◌≤◌, arith, refl, ◌+◌,
}
use promptshield_beta.Policies.Store.{
  Contents, answers, Op, create_op, spec_answers, delete_op, answers-refine, get_op, update_op,
}
use promptshield_beta.Policies.{collect, contains, Policy, has_type}
use promptshield_beta.Base.Int.{pos}
use promptshield_beta.Policies.Contains.{Occurs, contains_iff}

abbrev policy : Str → Policy
policy id = record {
  id = id;
  name = bytes "Prompt Injection Detection";
  version = pos 1;
  content = [];
  policy_type = bytes "builtin";
  created_by = none;
  created_at = pos 0;
  updated_at = pos 0;
}

abbrev one : Str
one = bytes "1"

abbrev stored : Map Policy
stored = (one, policy one) ∷ (bytes "2", policy (bytes "2")) ∷ (bytes "3", policy (bytes "3")) ∷ []

abbrev calls : List Op
calls =
    create_op (policy one)
    ∷ delete_op one
    ∷ get_op one
    ∷ create_op (policy one)
    ∷ update_op (policy (bytes "4"))
    ∷ get_op one
    ∷ []

abbrev contents : Contents
contents id = lookup id stored

three : length (collect (has_type (some (bytes "builtin"))) stored) ≤ 0 + 3
unfolding collect has_type same
three = omega arith

answers-refine_example : answers calls stored ≡ spec_answers calls contents
answers-refine_example = answers-refine calls stored contents (λ j. refl)

contains_iff_example :
    (contains (bytes "Prompt Injection") (bytes "Inj") ≡ true)
    ↔ Occurs (bytes "Inj") (bytes "Prompt Injection")
contains_iff_example = contains_iff (bytes "Prompt Injection") (bytes "Inj")
