-- ===== src/Services/PolicyScanner.antt =====
-- internal/application/services/policy_scanner_service.go: active policies become rule packs, which
-- are loaded into one scanner. The service's lock makes each method one function of its state, and
-- the order of the map's list is the one in which `range` meets the policies.
pub mod Synced
pub mod Total
mod Tests
use promptshield_beta.Base.Text.{Str, bytes}
use promptshield_beta.Scanner.Loader.{Loaded, NewAho, load_rule_packs}
use promptshield_beta.Base.Int.{ℤ, pos, negsuc}
use promptshield_beta.Rules.Types.{Metadata, Rule, RulePack}
use promptshield_beta.Policies.{Policy, PolicyError, get, get_active}
use promptshield_beta.Scanner.Compile.{coalesce}
use promptshield_beta.Base.Map.{Map, insert, remove}
use promptshield_beta.Base.{
  List, Option, [], ◌∷◌, map, some, ◌++◌, none, suc, take, inl, false, inr, ℕ, true, ◌⊎◌,
}
use promptshield_beta.Scanner.Compile.{Calls}
use promptshield_beta.Base.Decimal.{decimal}
use promptshield_beta.Scanner.Evaluate.{Violation}
use promptshield_beta.Scanner.Input.{
  Config, Environment, ScanError, scan_reader, Outcome, done, failed,
}

-- The two calls of yaml.Unmarshal: the whole text as a rule pack, and as a list of rules. None is
-- an error.
pub record Yaml : Type 0 where
  pub parse_pack : Str → Option RulePack
  pub parse_rules : Str → Option (List Rule)

pub record Service (C : Type 0) : Type 0 where
  pub loaded : Loaded C
  pub active_policies : Map Policy

-- %d
unfoldable pub format_int : ℤ → Str
format_int (pos n) = decimal n
format_int (negsuc n) = b'-' ∷ decimal (suc n)

unfoldable pub no_metadata : Metadata
no_metadata = record {
  name = [];
  version = [];
  description = [];
  author = [];
  license = [];
  homepage = [];
  repository = [];
  tags = [];
}

-- A pack of the given rules, named for the policy.
unfoldable pub pack_of : Policy → List Rule → RulePack
unfolding format_int no_metadata
pack_of p rules = record {
  api_version = bytes "promptshield.io/v1";
  kind = bytes "RulePack";
  metadata = record no_metadata {
    name = p.name;
    description = bytes "Policy " ++ p.name;
    version = b'v' ∷ format_int p.version;
  };
  rules = rules;
  extends = [];
  imports = [];
  composition = none;
  performance = none;
  overrides = [];
  context = [];
  source_path = [];
}

-- The rule for a policy whose text is neither.
unfoldable pub keyword_rule : Policy → Rule
keyword_rule p = record {
  id = bytes "policy-" ++ take 8 p.id;
  name = p.name;
  level = pos 1;
  severity = bytes "MEDIUM";
  category = [];
  enabled = none;
  verifier = [];
  keywords = bytes "inject" ∷ bytes "ignore" ∷ bytes "override" ∷ [];
  patterns = [];
  semantic = none;
  fallback = none;
  logic = [];
  options = record { case_sensitive = false; whole_word = false };
  response = some (record {
    action = bytes "warn";
    message = bytes "Policy violation detected";
    replacement = [];
  });
  cache = none;
  when = none;
  unless = none;
  timeout = [];
}

-- convertPolicyToRulePack, which never returns an error.
unfoldable pub convert : Yaml → Policy → RulePack
unfolding pack_of keyword_rule coalesce
convert y p = elim (y.parse_pack p.content) [
  | some pack ↦ record pack {
    metadata = record pack.metadata { name = coalesce pack.metadata.name p.name };
    api_version = coalesce pack.api_version (bytes "promptshield.io/v1");
    kind = coalesce pack.kind (bytes "RulePack");
  }
  | none ↦ elim (y.parse_rules p.content) [
    | none ↦ pack_of p (keyword_rule p ∷ [])
    | some rules ↦ elim rules [ [] ↦ pack_of p (keyword_rule p ∷ []) | r ∷ rs ↦ pack_of p (r ∷ rs) ]
  ]
]

abbrev pub policies_of : Map Policy → List Policy
policies_of [] = []
policies_of ((k, p) ∷ m) = p ∷ policies_of m

unfoldable pub put_policies : List Policy → Map Policy → Map Policy
put_policies [] m = m
put_policies (p ∷ ps) m = put_policies ps (insert p.id p m)

unfoldable pub active_packs : Yaml → List Policy → List RulePack
unfolding convert
active_packs y ps = map (convert y) ps

module _ {C : Type 0} (y : Yaml) (k : Calls C) (new_aho : NewAho) where
  -- The packs of the policies are loaded, and the policies are the active ones.
  unfoldable pub install : List Policy → Map Policy → Service C → Service C
  unfolding active_packs load_rule_packs
  install ps active s =
      let (loaded, errs) = load_rule_packs k new_aho (active_packs y ps) s.loaded in
      record { loaded = loaded; active_policies = active }

  -- The repository answers GetActive.
  unfoldable pub reload_active_policies : Map Policy → Service C → Service C
  unfolding install put_policies
  reload_active_policies repo s = let ps = get_active repo in install ps (put_policies ps []) s

  -- reloadScannerLocked
  unfoldable pub reload_scanner : Map Policy → Service C → Service C
  unfolding install
  reload_scanner active s = install (policies_of active) active s

  unfoldable pub activate_policy : Str → Map Policy → Service C → Option PolicyError × Service C
  unfolding reload_scanner
  activate_policy id repo s = elim (get id repo) [
    | inl e ↦ (some e, s)
    | inr p ↦ (none, reload_scanner (insert id p s.active_policies) s)
  ]

  unfoldable pub deactivate_policy : Str → Service C → Option PolicyError × Service C
  unfolding reload_scanner
  deactivate_policy id s = (none, reload_scanner (remove id s.active_policies) s)

-- types.PolicyViolation; the confidence is always 1.
pub record PolicyViolation : Type 0 where
  pub rule_id : Str
  pub severity : Str
  pub message : Str
  pub action : Str
  pub line : ℕ
  pub column : ℕ
  pub category : Str
  pub response_action : Str
  pub response_message : Str
  pub response_replacement : Str
  pub rule_timeout_ms : ℤ

unfoldable pub convert_violation : (Str → Str) → Violation → PolicyViolation
unfolding coalesce
convert_violation to_lower v = record {
  rule_id = v.rule_id;
  severity = coalesce (to_lower v.severity) (bytes "medium");
  message = v.message;
  action = bytes "deny";
  line = v.line;
  column = v.column;
  category = v.category;
  response_action = v.response_action;
  response_message = v.response_message;
  response_replacement = v.response_replacement;
  rule_timeout_ms = v.rule_timeout_ms;
}

unfoldable pub convert_violations : (Str → Str) → List Violation → List PolicyViolation
unfolding convert_violation
convert_violations to_lower [] = []
convert_violations to_lower (v ∷ vs) = convert_violation to_lower v ∷ convert_violations to_lower vs

-- The limits that NewPolicyScannerService sets.
unfoldable pub service_config : Config
service_config = record {
  max_stream_bytes = pos 10_485_760;
  max_resident_memory_bytes = 0;
  max_file_bytes = pos 0;
  chunk_overlap_bytes = pos 0;
  quarantine_on_error = true;
  quarantine_on_timeout = true;
}

-- types.ScanResult, without its identifier and its times.
pub record TextResult : Type 0 where
  pub violations : List PolicyViolation
  pub bytes_read : ℕ
  pub lines_read : ℕ
  pub regex_attempts : ℕ
  pub regex_skipped : ℕ
  pub semantic_attempts : ℕ
  pub semantic_skipped : ℕ

unfoldable pub text_result : (Str → Str) → Outcome → ScanError ⊎ TextResult
unfolding convert_violations
text_result to_lower (failed e) = inl e
text_result to_lower (done r) = inr (record {
  violations = convert_violations to_lower r.eval.violations;
  bytes_read = r.bytes_read;
  lines_read = r.lines_read;
  regex_attempts = r.eval.regex_attempts;
  regex_skipped = r.eval.regex_skipped;
  semantic_attempts = r.eval.semantic_attempts;
  semantic_skipped = r.eval.semantic_skipped;
})

-- ScanText; a string is read without an error.
unfoldable pub scan_text :
    {C : Type 0} → (Str → Str) → Environment → Str → Service C → ScanError ⊎ TextResult
unfolding text_result service_config
scan_text to_lower env content s =
    text_result to_lower
      (scan_reader s.loaded.scanner service_config env (bytes "policy-test") content none)
