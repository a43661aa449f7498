-- ===== src/Rules/Complexity/Tests.antt =====
-- The score of a tree: an alternation of two leaves.
use promptshield_beta.Rules.Complexity.{
  Calls, Regexp, alternate, other, cons, nil, compute_regex_complexity,
}
use promptshield_beta.Base.{◌≡◌, inr, [], refl}
use promptshield_beta.Rules.Complexity.Walk.{
  size, height, repeat_count, branches, compute_regex_complexity_lem,
}
use promptshield_beta.Base.Text.{bytes}

abbrev leaf : Regexp
leaf = other nil

abbrev calls : Calls
calls = record {
  parse = λ text. inr (alternate leaf (cons leaf nil));
  simplify = λ r. r;
  getenv = λ name. [];
  to_lower = λ text. text;
}

-- Simplify has no repeats to remove here.
abbrev flat : Calls
flat = record calls { simplify = λ r. alternate leaf (cons leaf nil) }

compute_regex_complexity_lem_example :
    compute_regex_complexity calls (bytes "a|b") []
    ≡ inr (record { nodes = 3; max_depth = 2; alternations = 1; repeats = 0 })
unfolding size height branches repeat_count
compute_regex_complexity_lem_example =
    compute_regex_complexity_lem calls b'a' (bytes "|b") [] (alternate leaf (cons leaf nil)) refl
