-- ===== src/Rulesets/Tests.antt =====
-- A set that is loaded twice, the second time with an error.
use promptshield_beta.Rulesets.{reload, new_set, Set, load_failed}
use promptshield_beta.Rulesets.History.{run, IsAfter, run-IsAfter, listen, load_at, Call}
use promptshield_beta.Base.Text.{bytes, Str}
use promptshield_beta.Base.Int.{pos}
use promptshield_beta.Base.Text.{same}
use promptshield_beta.Scanner.Loader.Tests.{pack}
use promptshield_beta.Base.{List, ◌≡◌, ◌⊎◌, [], some, none, ◌∷◌, refl, inl, inr}
use promptshield_beta.Rulesets.Pool.{swap_all, log_at, new_scanner_pool, new_scanner_pool-current}
use promptshield_beta.Rules.Types.{RulePack}

abbrev missing : Str → Str ⊎ List RulePack
missing path = inl (bytes "no such file")

abbrev one_pack : Str → Str ⊎ List RulePack
one_pack path = inr (pack none ∷ [])

abbrev empty_set : Set
empty_set = record {
  path = bytes "rules";
  packs = [];
  loaded_at = none;
  generation = 0;
  listeners = [];
}

abbrev calls : List Call
calls = load_at (pos 1) one_pack ∷ listen ∷ load_at (pos 2) missing ∷ load_at (pos 3) one_pack ∷ []

-- A set whose first load fails is empty, and can be loaded later.
first_load_fails :
    new_set (bytes "rules") missing (pos 0)
    ≡ (some (load_failed (bytes "rules") (bytes "no such file")), empty_set)
unfolding new_set reload same
first_load_fails = refl

run-IsAfter_example : IsAfter calls empty_set (run calls empty_set)
unfolding same
run-IsAfter_example = run-IsAfter calls empty_set refl

new_scanner_pool-current_example :
    (swap_all
      (log_at 0 (run calls (new_scanner_pool empty_set (pos 0)).1).listeners)
      (new_scanner_pool empty_set (pos 0)).0).current
    ≡ (run calls (new_scanner_pool empty_set (pos 0)).1).packs
new_scanner_pool-current_example = new_scanner_pool-current empty_set (pos 0) calls
