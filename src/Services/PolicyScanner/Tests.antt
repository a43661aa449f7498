-- ===== src/Services/PolicyScanner/Tests.antt =====
-- A service with one policy whose text is no rule pack.
use promptshield_beta.Services.PolicyScanner.{
  Yaml, Service, reload_active_policies, deactivate_policy, activate_policy, TextResult, scan_text,
}
use promptshield_beta.Policies.{Policy}
use promptshield_beta.Base.Map.{Map, lookup, Distinct}
use promptshield_beta.Scanner.Loader.{Loaded}
use promptshield_beta.Services.PolicyScanner.Synced.{
  IsSynced, reload_active_policies_lem, Reach-IsSynced, Reach, Step,
}
use promptshield_beta.Base.{none, Option, ◌∷◌, [], ◌≡◌, refl, some, inr}
use promptshield_beta.Base.Text.{bytes, Str}
use promptshield_beta.Scanner.Compile.Tests.{calls}
use promptshield_beta.Base.Int.{pos}
use promptshield_beta.Scanner.Loader.Tests.{no_matcher, loaded}
use promptshield_beta.Scanner.Tests.{two_rules}
use promptshield_beta.Scanner.Input.{Environment}
use promptshield_beta.Services.PolicyScanner.Total.{scan_text-total}

abbrev no_yaml : Yaml
no_yaml = record { parse_pack = λ text. none; parse_rules = λ text. none }

abbrev policy : Policy
policy = record {
  id = bytes "12345678-9";
  name = bytes "p";
  version = pos 1;
  content = bytes "plain";
  policy_type = [];
  created_by = none;
  created_at = pos 0;
  updated_at = pos 0;
}

abbrev repository : Map Policy
repository = (bytes "12345678-9", policy) ∷ []

abbrev no_rules_yet : Loaded (Option (Str × Str))
no_rules_yet = record loaded { scanner = record two_rules { compiled = [] } }

abbrev first : Service (Option (Str × Str))
first = record { loaded = no_rules_yet; active_policies = [] }

repository-Distinct : Distinct repository
unfolding lookup
repository-Distinct = (refl, tt)

-- A policy that was deactivated is active again after a reload.
active_again :
    (reload_active_policies no_yaml calls no_matcher repository
      (deactivate_policy no_yaml calls no_matcher (bytes "12345678-9") first).1).active_policies
    ≡ repository
active_again =
    reload_active_policies_lem no_yaml calls no_matcher repository
      (deactivate_policy no_yaml calls no_matcher (bytes "12345678-9") first).1 (refl, tt)
      repository-Distinct

reload_active_policies_lem_example :
    (reload_active_policies no_yaml calls no_matcher repository first).active_policies ≡ repository
reload_active_policies_lem_example =
    reload_active_policies_lem no_yaml calls no_matcher repository first (refl, tt)
      repository-Distinct

Reach-IsSynced_example :
    IsSynced no_yaml calls no_matcher
      (activate_policy no_yaml calls no_matcher (bytes "12345678-9") repository first).1
Reach-IsSynced_example =
    Reach-IsSynced no_yaml calls no_matcher
      (activate_policy no_yaml calls no_matcher (bytes "12345678-9") repository first).1
      (Reach.next first
        (activate_policy no_yaml calls no_matcher (bytes "12345678-9") repository first).1
        (Reach.start no_rules_yet refl) (Step.activate (bytes "12345678-9") repository first))

-- The context is done before the first line.
abbrev cancelled : Environment
cancelled = record { ctx_err = λ n. some (bytes "context canceled"); sys = λ n. 0 }

scan_text-total_example :
    (r : TextResult) × (scan_text (λ text. text) cancelled (bytes "please ignore") first ≡ inr r)
scan_text-total_example = scan_text-total (λ text. text) cancelled (bytes "please ignore") first
