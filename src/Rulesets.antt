-- ===== src/Rulesets.antt =====
-- internal/application/rulesets/set.go and snapshot.go: the rule packs that the gateway enforces,
-- which are loaded again while it runs. A listener stands for the packs that it was called with,
-- the newest last. Calls run one after the other.
mod Tests
pub mod History
pub mod Pool
use promptshield_beta.Base.{
  List, Option, none, some, [], ◌∷◌, ◌++◌, ◌+◌, suc, ℕ, length, map, if◌then◌else◌, inl, inr, ◌⊎◌,
  true, not, Bool,
}
use promptshield_beta.Base.Text.{Str, same}
use promptshield_beta.Rules.Types.{Rule, RulePack}
use promptshield_beta.Base.Int.{ℤ}

pub data SetError : Type 0 where
  no_source : SetError
  load_failed : (path error : Str) → SetError

-- Set; `loaded_at` is none for the zero time.
pub record Set : Type 0 where
  pub path : Str
  pub packs : List RulePack
  pub loaded_at : Option ℤ
  pub generation : ℕ
  pub listeners : List (List (List RulePack))

-- What is shown of a rule, a pack and the set.
pub record RuleView : Type 0 where
  pub id : Str
  pub name : Str
  pub level : ℤ
  pub severity : Str
  pub category : Str
  pub action : Str
  pub enabled : Bool
  pub keywords : ℕ
  pub patterns : ℕ

pub record PackView : Type 0 where
  pub name : Str
  pub version : Str
  pub description : Str
  pub rules : List RuleView

pub record Snapshot : Type 0 where
  pub source : Str
  pub loaded_at : Option ℤ
  pub generation : ℕ
  pub rule_count : ℕ
  pub packs : List PackView

unfoldable pub view_rule : Rule → RuleView
view_rule r = record {
  id = r.id;
  name = r.name;
  level = r.level;
  severity = r.severity;
  category = r.category;
  action = elim r.response [ none ↦ [] | some response ↦ response.action ];
  enabled = elim r.enabled [ none ↦ true | some b ↦ b ];
  keywords = length r.keywords;
  patterns = length r.patterns;
}

unfoldable pub summarize_pack : RulePack → PackView
unfolding view_rule
summarize_pack p = record {
  name = p.metadata.name;
  version = p.metadata.version;
  description = p.metadata.description;
  rules = map view_rule p.rules;
}

-- The loop over the packs.
unfoldable pub snap_loop : List RulePack → Snapshot → Snapshot
unfolding summarize_pack
snap_loop [] snap = snap
snap_loop (p ∷ ps) snap =
    let pack = summarize_pack p in
    snap_loop ps (record snap {
      rule_count = snap.rule_count + length pack.rules;
      packs = snap.packs ++ pack ∷ [];
    })

unfoldable pub snapshot : Set → Snapshot
unfolding snap_loop
snapshot s = snap_loop s.packs (record {
  source = s.path;
  loaded_at = s.loaded_at;
  generation = s.generation;
  rule_count = 0;
  packs = [];
})

unfoldable pub on_change : Set → Set
on_change s = record s { listeners = s.listeners ++ [] ∷ [] }

-- Each listener is called with the packs.
unfoldable pub notify : List RulePack → List (List (List RulePack)) → List (List (List RulePack))
notify packs [] = []
notify packs (l ∷ ls) = (l ++ packs ∷ []) ∷ notify packs ls

-- Reload at a time, with the loader's answers.
unfoldable pub reload : (Str → Str ⊎ List RulePack) → ℤ → Set → (Option SetError × Snapshot) × Set
unfolding snapshot notify
reload load now s =
    if same s.path [] then ((some no_source, snapshot s), s) else elim (load s.path) [
      | inl e ↦ ((some (load_failed s.path e), snapshot s), s)
      | inr packs ↦
          let loaded : Set = record s {
            packs = packs;
            loaded_at = some now;
            generation = suc s.generation;
            listeners = notify packs s.listeners;
          } in
          ((none, snapshot loaded), loaded)
    ]

-- NewSetWithLoader
unfoldable pub new_set : Str → (Str → Str ⊎ List RulePack) → ℤ → Option SetError × Set
unfolding reload
new_set path load now =
    let empty : Set = record {
      path = path;
      packs = [];
      loaded_at = none;
      generation = 0;
      listeners = [];
    } in
    if same path [] then (none, empty) else let (answer, s) = reload load now empty in (answer.0, s)
