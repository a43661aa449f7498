-- ===== src/Rulepacks/Reach.antt =====
-- internal/infrastructure/persistence/memory/rulepack_repository.go: the states that calls reach,
-- and what `GetActive` and `GetLatestVersion` answer in them.
use promptshield_beta.Rulepacks.{
  Repo, get_latest_version, activate_latest, RepoError, create, new_repository, ◌⊎◌, Version,
  create_version, activate, create_version_activate_tx, delete, latest_loop, purge_old_versions,
  is_newer, get_active, approved, no_active, default_pack_id, nil_id,
}
use promptshield_beta.Base.Text.{Str, eq_of_same, same_refl, same}
use promptshield_beta.Rulepacks.Inv.{
  IsValid, activate-IsValid, create-IsValid, add_version-IsValid, delete-IsValid,
  set_active-IsValid, purge-IsValid,
}
use promptshield_beta.Base.Int.{ℤ, ltb_int, pos}
use promptshield_beta.Base.{
  ◌≡◌, inr, Option, inl, false, some, Option-cases, refl, none, arith, subst, sym, ◌∙◌, if-holds,
  [], true,
}
use promptshield_beta.Base.Map.{is_some, lookup, insert, lookup-insert_self}
use promptshield_beta.Rulepacks.Latest.{latest_loop-origin, latest_loop-newest}

-- The calls on the repository. A new version's uuid is new, and a version is activated for the
-- pack that it belongs to, which `Activate` does not check.
pub data Step : Repo → Repo → Type 0 where
  create_step :
      (id : Str) (now : ℤ) (tenant name desc : Str) (r : Repo)
      → Step r (create id now tenant name desc r).1
  create_version_step :
      (id : Str) (now : ℤ) (p : Str) (n : ℤ) (dsl status by : Str) (r : Repo)
      → is_some (lookup id r.versions) ≡ false
      → Step r (create_version id now p n dsl status by r).1
  create_active_step :
      (id : Str) (now : ℤ) (p : Str) (n : ℤ) (dsl by : Str) (r : Repo)
      → is_some (lookup id r.versions) ≡ false
      → Step r (create_version_activate_tx id now p n dsl by r).1
  activate_step :
      (p k : Str) (v : Version) (r : Repo)
      → lookup k r.versions ≡ some v
      → v.rulepack_id ≡ p
      → Step r (activate p k r).1
  activate_latest_step : (p : Str) (r : Repo) → Step r (activate_latest p r r).1
  delete_step : (p : Str) (r : Repo) → Step r (delete p r).1
  purge_step : (p : Str) (retention : ℤ) (r : Repo) → Step r (purge_old_versions p retention r)

-- The states after calls on the repository that the constructor returns.
pub data Reach : Repo → Type 0 where
  start : (id dsl : Str) (now : ℤ) → Reach (new_repository id dsl now)
  next : (r s : Repo) → Reach r → Step r s → Reach s

-- In a valid state the version that `GetLatestVersion` returns is stored, is the pack's, has the
-- number returned, and none of the pack's versions has a larger number.
pub get_latest_version_lem :
    (p : Str) (r : Repo) (id : Str) (n : ℤ)
    → IsValid r
    → get_latest_version p r ≡ inr (id, n)
    → (v : Version) × (lookup id r.versions ≡ some v)
      × (v.rulepack_id ≡ p)
      × (v.version ≡ n)
      × ((k : Str) (w : Version)
          → lookup k r.versions ≡ some w
          → w.rulepack_id ≡ p
          → ltb_int n w.version ≡ false)
unfolding get_latest_version is_newer
get_latest_version_lem p r id n valid h = elim (Option-cases (latest_loop p r.versions none)) [
  | inl e ↦ ground (arith, e, h)
  | inr (v, e) ↦ elim (latest_loop-origin p r.versions none v valid.keys e) [
    | inl impossible ↦ ground (arith, impossible)
    | inr (k, found, own) ↦
        let id_eq : v.id ≡ id = ground (arith, e, h) in
        let n_eq : v.version ≡ n = ground (arith, e, h) in
        (
          v,
          subst (λ (z : Str). lookup z r.versions ≡ some v) (sym (valid.keyed k v found) ∙ id_eq)
              found,
          eq_of_same v.rulepack_id p own,
          n_eq,
          λ j w at of_p.
              let not_newer : is_newer w (some v) ≡ false =
                subst (λ (o : Option Version). is_newer w o ≡ false) e
                  (latest_loop-newest p r.versions none j w at (rw of_p (same_refl p))) in
              ground (arith, not_newer, n_eq),
        )
  ]
]

activate_latest-IsValid : (p : Str) (r : Repo) → IsValid r → IsValid (activate_latest p r r).1
unfolding activate_latest
activate_latest-IsValid p r valid = go (get_latest_version p r) refl
  where
    go :
        (res : RepoError ⊎ (Str × ℤ))
        → get_latest_version p r ≡ res
        → IsValid
            (elim res as (λ x. Option RepoError × Repo) [
              | inl e ↦ (some e, r)
              | inr (version_id, number) ↦ activate p version_id r
            ]).1
    go (inl e) h = valid
    go (inr (id, n)) h =
        let lem = get_latest_version_lem p r id n valid h in
        activate-IsValid p id lem.0 r lem.1 lem.2 valid

create_version-IsValid :
    (id : Str) (now : ℤ) (p : Str) (n : ℤ) (dsl status by : Str) (r : Repo)
    → is_some (lookup id r.versions) ≡ false
    → IsValid r
    → IsValid (create_version id now p n dsl status by r).1
unfolding create_version
create_version-IsValid id now p n dsl status by r fresh valid =
    if-holds (λ (res : (RepoError ⊎ Str) × Repo). IsValid res.1) (is_some (lookup p r.rulepacks)) _
      _ (λ e. add_version-IsValid r _ fresh valid) (λ e. valid)

create_active-IsValid :
    (id : Str) (now : ℤ) (p : Str) (n : ℤ) (dsl by : Str) (r : Repo)
    → is_some (lookup id r.versions) ≡ false
    → IsValid r
    → IsValid (create_version_activate_tx id now p n dsl by r).1
unfolding create_version_activate_tx
create_active-IsValid id now p n dsl by r fresh valid =
    if-holds (λ (res : (RepoError ⊎ Str) × Repo). IsValid res.1) (is_some (lookup p r.rulepacks)) _
      _
      (λ known.
        let ver : Version = record {
          id = id;
          rulepack_id = p;
          version = n;
          dsl = dsl;
          status = approved;
          created_by = by;
          created_at = now;
        } in
        set_active-IsValid p id ver (record r { versions = insert id ver r.versions }) known
          (lookup-insert_self id ver r.versions) refl (add_version-IsValid r ver fresh valid))
      (λ e. valid)

Step-IsValid : {r s : Repo} → Step r s → IsValid r → IsValid s
Step-IsValid (create_step id now tenant name desc r) valid =
    create-IsValid id now tenant name desc r valid
Step-IsValid (create_version_step id now p n dsl status by r fresh) valid =
    create_version-IsValid id now p n dsl status by r fresh valid
Step-IsValid (create_active_step id now p n dsl by r fresh) valid =
    create_active-IsValid id now p n dsl by r fresh valid
Step-IsValid (activate_step p k v r found own) valid = activate-IsValid p k v r found own valid
Step-IsValid (activate_latest_step p r) valid = activate_latest-IsValid p r valid
Step-IsValid (delete_step p r) valid = delete-IsValid p r valid
Step-IsValid (purge_step p retention r) valid = purge-IsValid p retention r valid

new_repository-IsValid : (id dsl : Str) (now : ℤ) → IsValid (new_repository id dsl now)
unfolding new_repository insert lookup same
new_repository-IsValid id dsl now =
    set_active-IsValid default_pack_id id ver (record r0 { versions = insert id ver [] }) known
      (lookup-insert_self id ver []) refl (add_version-IsValid r0 ver refl valid)
  where
    r0 : Repo
    r0 = record (new_repository id dsl now) { versions = []; active_version = [] }

    known : is_some (lookup default_pack_id r0.rulepacks) ≡ true
    known = refl

    ver : Version
    ver = record {
      id = id;
      rulepack_id = default_pack_id;
      version = pos 1;
      dsl = dsl;
      status = approved;
      created_by = nil_id;
      created_at = now;
    }

    valid : IsValid r0
    valid = record {
      keys = tt;
      keyed = λ k v h. ground (arith, h);
      active_exists = λ p k h. ground (arith, h);
    }

pub Reach-IsValid : {r : Repo} → Reach r → IsValid r
Reach-IsValid (start id dsl now) = new_repository-IsValid id dsl now
Reach-IsValid (next r s reach step) = Step-IsValid step (Reach-IsValid reach)

-- In every state that calls on a new repository reach, where a version's uuid is new and a version
-- is activated only for its own pack, `GetActive` answers that the pack has no active version, or
-- the text and number of a version of that pack that is stored.
pub get_active-Reach :
    (r : Repo) (p : Str)
    → Reach r
    → (get_active p r ≡ inl (no_active p))
      ⊎ ((k : Str) × (v : Version) × (lookup k r.versions ≡ some v)
          × (v.rulepack_id ≡ p)
          × (get_active p r ≡ inr (v.dsl, v.version)))
unfolding get_active
get_active-Reach r p reach = elim (Option-cases (lookup p r.active_version)) [
  | inl e ↦ inl (ground (arith, e))
  | inr (k, e) ↦
      let ok = (Reach-IsValid reach).active_exists p k e in
      inr (k, ok.1.0, ok.1.1, ok.1.2, ground (arith, e, ok.1.1))
]
