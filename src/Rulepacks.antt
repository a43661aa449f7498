-- ===== src/Rulepacks.antt =====
-- internal/infrastructure/persistence/memory/rulepack_repository.go: the rulepack repository in
-- memory. A method runs under the lock, so it is one function from the state to the state; a new
-- uuid and the time are arguments. The order of a map's list is the order in which `range` meets
-- its entries.
pub mod Latest
pub mod Purge
pub mod Inv
pub mod Reach
mod Tests
use promptshield_beta.Base.Text.{Str, bytes, same}
use promptshield_beta.Base.Map.{Map, lookup, remove, is_some, insert}
use promptshield_beta.Base.{
  Option, replicate, Bool, ◌⊎◌, if◌then◌else◌, List, ℕ, inl, none, ◌∷◌, false, inr, not, true, some,
  ◌+◌, [], ◌&&◌, ◌||◌, ltb, ◌-◌,
}
use promptshield_beta.Base.Int.{ℤ, pos, ltb_int, neg_part, same_int, pos_part}

pub record Pack : Type 0 where
  pub id : Str
  pub tenant_id : Str
  pub name : Str
  pub description : Str
  pub created_at : ℤ

pub record Version : Type 0 where
  pub id : Str
  pub rulepack_id : Str
  pub version : ℤ
  pub dsl : Str
  pub status : Str
  pub created_by : Str
  pub created_at : ℤ

pub record Repo : Type 0 where
  pub rulepacks : Map Pack
  pub versions : Map Version
  pub active_version : Map Str

pub record PackInfo : Type 0 where
  pub id : Str
  pub name : Str
  pub description : Str
  pub version : ℤ
  pub active : Bool

-- The errors, with what their texts name.
pub data RepoError : Type 0 where
  name_exists : RepoError
  pack_not_found : Str → RepoError
  no_active : Str → RepoError
  version_not_found : Str → RepoError
  number_not_found : ℤ → Str → RepoError
  no_versions : Str → RepoError

-- uuid.Nil
abbrev pub nil_id : Str
nil_id = bytes "00000000-0000-0000-0000-000000000000"

abbrev pub approved : Str
approved = bytes "approved"

abbrev pub default_pack_id : Str
default_pack_id = bytes "f47ac10b-58cc-4372-a567-0e02b2c3d479"

-- The state that `NewRulepackRepository` returns: the default pack with its active version.
unfoldable pub new_repository : Str → Str → ℤ → Repo
new_repository version_id default_dsl yesterday =
    let pack : Pack = record {
      id = default_pack_id;
      tenant_id = nil_id;
      name = bytes "Default Security Rules";
      description = bytes "Built-in security rules for prompt injection detection";
      created_at = yesterday;
    } in
    let version : Version = record {
      id = version_id;
      rulepack_id = default_pack_id;
      version = pos 1;
      dsl = default_dsl;
      status = approved;
      created_by = nil_id;
      created_at = yesterday;
    } in
    record {
      rulepacks = insert default_pack_id pack [];
      versions = insert version_id version [];
      active_version = insert default_pack_id version_id [];
    }

unfoldable pub name_taken : Str → Str → Map Pack → Bool
name_taken tenant name [] = false
name_taken tenant name ((k, p) ∷ m) =
    same p.tenant_id tenant && same p.name name || name_taken tenant name m

unfoldable pub create : Str → ℤ → Str → Str → Str → Repo → (RepoError ⊎ Str) × Repo
unfolding name_taken
create new_id now tenant name desc r =
    let pack : Pack = record {
      id = new_id;
      tenant_id = tenant;
      name = name;
      description = desc;
      created_at = now;
    } in
    if name_taken tenant name r.rulepacks
    then (inl name_exists, r)
    else (inr new_id, record r { rulepacks = insert new_id pack r.rulepacks })

unfoldable pub create_version :
    Str → ℤ → Str → ℤ → Str → Str → Str → Repo → (RepoError ⊎ Str) × Repo
create_version new_id now pack_id version dsl status created_by r =
    let ver : Version = record {
      id = new_id;
      rulepack_id = pack_id;
      version = version;
      dsl = dsl;
      status = status;
      created_by = created_by;
      created_at = now;
    } in
    if is_some (lookup pack_id r.rulepacks)
    then (inr new_id, record r { versions = insert new_id ver r.versions })
    else (inl (pack_not_found pack_id), r)

unfoldable pub create_version_activate_tx :
    Str → ℤ → Str → ℤ → Str → Str → Repo → (RepoError ⊎ Str) × Repo
create_version_activate_tx new_id now pack_id version dsl created_by r =
    let ver : Version = record {
      id = new_id;
      rulepack_id = pack_id;
      version = version;
      dsl = dsl;
      status = approved;
      created_by = created_by;
      created_at = now;
    } in
    let stored : Repo = record r {
      versions = insert new_id ver r.versions;
      active_version = insert pack_id new_id r.active_version;
    } in
    if is_some (lookup pack_id r.rulepacks)
    then (inr new_id, stored)
    else (inl (pack_not_found pack_id), r)

unfoldable pub get_active : Str → Repo → RepoError ⊎ (Str × ℤ)
get_active pack_id r = elim (lookup pack_id r.active_version) [
  | none ↦ inl (no_active pack_id)
  | some version_id ↦ elim (lookup version_id r.versions) [
    | none ↦ inl (version_not_found version_id)
    | some ver ↦ inr (ver.dsl, ver.version)
  ]
]

-- The error, if any, and the state.
unfoldable pub activate : Str → Str → Repo → Option RepoError × Repo
activate pack_id version_id r =
    if not (is_some (lookup pack_id r.rulepacks))
    then (some (pack_not_found pack_id), r)
    else if not (is_some (lookup version_id r.versions))
    then (some (version_not_found version_id), r)
    else (none, record r { active_version = insert pack_id version_id r.active_version })

unfoldable pub find_version : Str → ℤ → Map Version → Option Version
find_version pack_id number [] = none
find_version pack_id number ((k, v) ∷ m) =
    if same v.rulepack_id pack_id && same_int v.version number
    then some v
    else find_version pack_id number m

unfoldable pub get_version : Str → ℤ → Repo → RepoError ⊎ (Str × Str)
unfolding find_version
get_version pack_id number r = elim (find_version pack_id number r.versions) [
  | none ↦ inl (number_not_found number pack_id)
  | some ver ↦ inr (ver.dsl, ver.status)
]

-- `latestVer == nil || ver.Version > latestVer.Version`
unfoldable pub is_newer : Version → Option Version → Bool
is_newer ver none = true
is_newer ver (some latest) = ltb_int latest.version ver.version

-- The body of the loop over the versions.
unfoldable pub latest_step : Str → Version → Option Version → Option Version
unfolding is_newer
latest_step pack_id v latest =
    if same v.rulepack_id pack_id && is_newer v latest then some v else latest

-- The loop over the versions: `latestVer` after it.
unfoldable pub latest_loop : Str → Map Version → Option Version → Option Version
unfolding latest_step
latest_loop pack_id [] latest = latest
latest_loop pack_id ((k, v) ∷ m) latest = latest_loop pack_id m (latest_step pack_id v latest)

unfoldable pub get_latest_version : Str → Repo → RepoError ⊎ (Str × ℤ)
unfolding latest_loop
get_latest_version pack_id r = elim (latest_loop pack_id r.versions none) [
  | none ↦ inl (no_versions pack_id)
  | some ver ↦ inr (ver.id, ver.version)
]

-- The lock is released between the two calls: the state read is an argument of its own.
unfoldable pub activate_latest : Str → Repo → Repo → Option RepoError × Repo
unfolding get_latest_version activate
activate_latest pack_id read r = elim (get_latest_version pack_id read) [
  | inl e ↦ (some e, r)
  | inr (version_id, number) ↦ activate pack_id version_id r
]

unfoldable pub pack_info : Repo → Pack → PackInfo
pack_info r p =
    let found : Option Version = elim (lookup p.id r.active_version) [
      | none ↦ none
      | some version_id ↦ lookup version_id r.versions
    ] in
    record {
      id = p.id;
      name = p.name;
      description = p.description;
      version = elim found [ none ↦ pos 0 | some ver ↦ ver.version ];
      active = is_some found;
    }

unfoldable pub infos : Str → Repo → Map Pack → List PackInfo
unfolding pack_info
infos tenant r [] = []
infos tenant r ((k, p) ∷ m) =
    let rest = infos tenant r m in
    if same p.tenant_id tenant || same tenant nil_id then pack_info r p ∷ rest else rest

unfoldable pub list_by_tenant : Str → Repo → List PackInfo
unfolding infos
list_by_tenant tenant r = infos tenant r r.rulepacks

-- The loop that deletes the pack's versions.
unfoldable pub delete_versions : Str → Map Version → Map Version
delete_versions pack_id [] = []
delete_versions pack_id ((k, v) ∷ m) =
    let rest = delete_versions pack_id m in
    if same v.rulepack_id pack_id then rest else (k, v) ∷ rest

unfoldable pub delete : Str → Repo → Option RepoError × Repo
unfolding delete_versions
delete pack_id r =
    let deleted : Repo = record {
      rulepacks = remove pack_id r.rulepacks;
      versions = delete_versions pack_id r.versions;
      active_version = remove pack_id r.active_version;
    } in
    if is_some (lookup pack_id r.rulepacks)
    then (none, deleted)
    else (some (pack_not_found pack_id), r)

unfoldable pub count_versions : Str → Map Version → ℕ
count_versions pack_id [] = 0
count_versions pack_id ((k, v) ∷ m) =
    (if same v.rulepack_id pack_id then 1 else 0) + count_versions pack_id m

-- `exists && activeID == id`
unfoldable pub is_active : Option Str → Str → Bool
is_active none id = false
is_active (some active_id) id = same active_id id

-- The loop that deletes: the versions left.
unfoldable pub purge_loop : Str → Option Str → ℕ → ℕ → Map Version → Map Version
unfolding is_active
purge_loop pack_id active to_delete deleted [] = []
purge_loop pack_id active to_delete deleted ((k, v) ∷ m) =
    elim (same v.rulepack_id pack_id && ltb deleted to_delete && not (is_active active k)) [
      | true ↦ purge_loop pack_id active to_delete (deleted + 1) m
      | false ↦ (k, v) ∷ purge_loop pack_id active to_delete deleted m
    ]

unfoldable pub purge_old_versions : Str → ℤ → Repo → Repo
unfolding count_versions purge_loop
purge_old_versions pack_id retention r =
    let count = count_versions pack_id r.versions in
    let to_delete = count + neg_part retention - pos_part retention in
    if ltb_int retention (pos count)
    then record r {
      versions = purge_loop pack_id (lookup pack_id r.active_version) to_delete 0 r.versions;
    }
    else r
