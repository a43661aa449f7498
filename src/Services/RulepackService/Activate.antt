-- ===== src/Services/RulepackService/Activate.antt =====
-- internal/application/services/rulepacks.go: a version that is created and activated is the one
-- that is answered, and the old versions are collected.
use promptshield_beta.Services.RulepackService.{
  get_active, retention_of, Context, create_version_activate, Service, publish, rule_update,
  count_activation, canary_delay, ServiceError,
}
use promptshield_beta.Rulepacks
use promptshield_beta.Rules.Complexity.{env_limit}
use promptshield_beta.Rulepacks.{
  purge_old_versions, create_version_activate_tx, Repo, nil_id, count_versions, is_active, Version,
  approved,
}
use promptshield_beta.Base.Text.{Str, bytes, same_refl}
use promptshield_beta.Base.{
  ℕ, ◌≤◌, ◌≡◌, arith, true, inr, some, inl, none, Option, suc, if◌then◌else◌, ◌∷◌, subst, sym, refl,
}
use promptshield_beta.Base.Int.{ℤ, pos_part, pos}
use promptshield_beta.Base.Map.{
  is_some, lookup, Distinct, insert, insert-Distinct, lookup-insert_self,
}
use promptshield_beta.Rulepacks.Purge.{purge_old_versions_lem}

-- A limit from the environment is positive, as its default is.
env_limit-positive :
    (getenv : Str → Str) (name : Str) (n : ℕ) → 1 ≤ n → 1 ≤ pos_part (env_limit getenv name (pos n))
unfolding env_limit
env_limit-positive getenv name n h = ground (arith, h)

retention_of-positive : (getenv : Str → Str) → 1 ≤ pos_part (retention_of getenv)
unfolding retention_of
retention_of-positive getenv =
    env_limit-positive getenv (bytes "PS_RULEPACK_RETENTION") 10 (ground (arith))

active-purge :
    (p : Str) (n : ℤ) (r : Repo) → (purge_old_versions p n r).active_version ≡ r.active_version
unfolding purge_old_versions
active-purge p n r = ground (arith)

active-is_active :
    (p id : Str) (r : Repo)
    → lookup p r.active_version ≡ some id
    → is_active (lookup p r.active_version) id ≡ true
unfolding is_active
active-is_active p id r h = rw h (same_refl id)

-- A purge spares the version that GetActive answers.
get_active-purge :
    (p id : Str) (k : ℤ) (v : Version) (r : Repo)
    → lookup p r.active_version ≡ some id
    → lookup id r.versions ≡ some v
    → Distinct r.versions
    → 1 ≤ pos_part k
    → Rulepacks.get_active p (purge_old_versions p k r) ≡ inr (v.dsl, v.version)
unfolding Rulepacks.get_active
get_active-purge p id k v r active stored d h =
    let spared =
      (purge_old_versions_lem p k r d h).1 id v stored (inl (active-is_active p id r active)) in
    ground (arith, active-purge p k r, active, spared)

-- The version that the call stores.
abbrev new_version : Str → ℤ → Str → ℤ → Str → Version
new_version new_id now p n dsl = record {
  id = new_id;
  rulepack_id = p;
  version = n;
  dsl = dsl;
  status = approved;
  created_by = nil_id;
  created_at = now;
}

-- The repository with the version, before the purge.
abbrev with_version : Str → ℤ → Str → ℤ → Str → Repo → Repo
with_version new_id now p n dsl r = record r {
  versions = insert new_id (new_version new_id now p n dsl) r.versions;
  active_version = insert p new_id r.active_version;
}

abbrev sent_with : Context → Str → ℤ → Str → Str → ℤ → Str → Service → Service
sent_with c new_id now tenant p n dsl s =
    publish c (rule_update c tenant p n dsl)
      (count_activation (record s { repo = with_version new_id now p n dsl s.repo }))

activated :
    (c : Context) (new_id : Str) (now : ℤ) (tenant p : Str) (n : ℤ) (dsl : Str) (s : Service)
    → canary_delay c ≡ none
    → is_some (lookup p s.repo.rulepacks) ≡ true
    → create_version_activate c new_id now tenant p n dsl s ≡ (
      none,
      record (sent_with c new_id now tenant p n dsl s) {
        repo =
            purge_old_versions p (retention_of c.getenv) (with_version new_id now p n dsl s.repo);
      },
    )
unfolding create_version_activate create_version_activate_tx publish count_activation
activated c new_id now tenant p n dsl s calm known = ground (arith, calm, known)

-- What is so after the call succeeded.
abbrev pub IsActivated :
    Context → Str → Str → ℤ → Str → Service → Option ServiceError × Service → Type 0
IsActivated c tenant p n dsl s after =
    (after.0 ≡ none)
    × (get_active p after.1 ≡ inr (dsl, n))
    × (count_versions p after.1.repo.versions ≤ pos_part (retention_of c.getenv))
    × (after.1.activations ≡ suc s.activations)
    × (after.1.published
        ≡ (if c.has_pub then rule_update c tenant p n dsl ∷ s.published else s.published))

sent_with-counts :
    (c : Context) (new_id : Str) (now : ℤ) (tenant p : Str) (n : ℤ) (dsl : Str) (s : Service)
    → ((sent_with c new_id now tenant p n dsl s).activations ≡ suc s.activations)
      × ((sent_with c new_id now tenant p n dsl s).published
          ≡ (if c.has_pub then rule_update c tenant p n dsl ∷ s.published else s.published))
unfolding publish count_activation
sent_with-counts c new_id now tenant p n dsl s = ground (arith)

-- On a state with distinct version ids, where no delay is interrupted and the pack exists,
-- CreateVersionActivate succeeds: the new version is then the one that GetActive answers, the pack
-- has at most as many versions as the retention says, one activation is counted, and an update with
-- the version is published if there is a publisher.
pub create_version_activate_lem :
    (c : Context) (new_id : Str) (now : ℤ) (tenant p : Str) (n : ℤ) (dsl : Str) (s : Service)
    → Distinct s.repo.versions
    → canary_delay c ≡ none
    → is_some (lookup p s.repo.rulepacks) ≡ true
    → IsActivated c tenant p n dsl s (create_version_activate c new_id now tenant p n dsl s)
unfolding get_active
create_version_activate_lem c new_id now tenant p n dsl s d calm known =
    let k = retention_of c.getenv in
    let v = new_version new_id now p n dsl in
    let r = with_version new_id now p n dsl s.repo in
    let d' = insert-Distinct new_id v s.repo.versions d in
    let h = retention_of-positive c.getenv in
    let counts = sent_with-counts c new_id now tenant p n dsl s in
    subst (IsActivated c tenant p n dsl s)
      (sym (activated c new_id now tenant p n dsl s calm known))
      (
        refl,
        get_active-purge p new_id k v r (lookup-insert_self p new_id s.repo.active_version)
            (lookup-insert_self new_id v s.repo.versions) d' h,
        ground (arith, (purge_old_versions_lem p k r d' h).0),
        counts.0,
        counts.1,
      )
