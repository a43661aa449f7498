-- ===== src/Rulepacks/Purge.antt =====
-- `PurgeOldVersions` of internal/infrastructure/persistence/memory/rulepack_repository.go.
use promptshield_beta.Base.Text.{Str, same, same_iff}
use promptshield_beta.Base.Map.{lookup, Map, is_some, Distinct}
use promptshield_beta.Rulepacks.{
  is_active, count_versions, purge_loop, Version, purge_old_versions, Repo,
}
use promptshield_beta.Base.{
  Option, ℕ, ◌≤◌, ◌≡◌, ◌∷◌, if◌then◌else◌, false, arith, ◌+◌, some, min, true, [], ◌&&◌, ◌-◌, ◌⊎◌,
  refl, none,
}
use promptshield_beta.Base.Int.{ℤ, pos_part, negsuc, pos, ltb_int, neg_part}

-- The versions of the pack under the active version's id.
count_active : Str → Option Str → Map Version → ℕ
count_active pack_id active [] = 0
count_active pack_id active ((k, v) ∷ m) =
    (if same v.rulepack_id pack_id && is_active active k then 1 else 0)
    + count_active pack_id active m

count_active-absent :
    (pack_id id : Str) (m : Map Version)
    → is_some (lookup id m) ≡ false
    → count_active pack_id (some id) m ≡ 0
unfolding count_active lookup is_active
count_active-absent pack_id id [] h = refl
count_active-absent pack_id id ((k, v) ∷ m) h =
    ground (arith, count_active-absent pack_id id m, same_iff k id, same_iff id k, h)

count_active-le :
    (pack_id : Str) (active : Option Str) (m : Map Version)
    → Distinct m
    → count_active pack_id active m ≤ 1
unfolding count_active is_active
count_active-le pack_id active [] d = omega arith
count_active-le pack_id none ((k, v) ∷ m) d = ground (arith, count_active-le pack_id none m d.1)
count_active-le pack_id (some id) ((k, v) ∷ m) d = ground (
  arith,
  count_active-le pack_id (some id) m d.1,
  count_active-absent pack_id k m d.0,
  same_iff id k,
)

count-le :
    (pack_id : Str) (active : Option Str) (m : Map Version)
    → count_active pack_id active m ≤ count_versions pack_id m
unfolding count_active count_versions
count-le pack_id active [] = omega arith
count-le pack_id active ((k, v) ∷ m) = ground (arith, count-le pack_id active m)

-- The loop deletes as many versions as it may, and only versions that are not active.
purge_loop-count :
    (pack_id : Str) (active : Option Str) (n i : ℕ) (m : Map Version)
    → i ≤ n
    → count_versions pack_id (purge_loop pack_id active n i m)
        + min (n - i) (count_versions pack_id m - count_active pack_id active m)
      ≡ count_versions pack_id m
unfolding purge_loop count_versions count_active
purge_loop-count pack_id active n i [] h = omega arith
purge_loop-count pack_id active n i ((k, v) ∷ m) h = ground (
  arith,
  purge_loop-count pack_id active n i m h,
  purge_loop-count pack_id active n (i + 1) m,
  count-le pack_id active m,
  h,
)

-- A version that is active, or of another pack, stays.
pub purge_loop-keeps :
    (pack_id : Str) (active : Option Str) (n i : ℕ) (m : Map Version) (k : Str) (v : Version)
    → lookup k m ≡ some v
    → (is_active active k ≡ true) ⊎ (same v.rulepack_id pack_id ≡ false)
    → lookup k (purge_loop pack_id active n i m) ≡ some v
unfolding purge_loop lookup
purge_loop-keeps pack_id active n i [] k v h keep = h
purge_loop-keeps pack_id active n i ((j, w) ∷ m) k v h keep = ground (
  arith,
  purge_loop-keeps pack_id active n i m k v,
  purge_loop-keeps pack_id active n (i + 1) m k v,
  same_iff j k,
  keep,
  h,
)

purge_loop-absent :
    (pack_id : Str) (active : Option Str) (n i : ℕ) (m : Map Version) (k : Str)
    → is_some (lookup k m) ≡ false
    → is_some (lookup k (purge_loop pack_id active n i m)) ≡ false
unfolding purge_loop lookup
purge_loop-absent pack_id active n i [] k h = h
purge_loop-absent pack_id active n i ((j, w) ∷ m) k h = ground (
  arith,
  purge_loop-absent pack_id active n i m k,
  purge_loop-absent pack_id active n (i + 1) m k,
  h,
)

-- Nothing else changes.
pub purge_loop-sub :
    (pack_id : Str) (active : Option Str) (n i : ℕ) (m : Map Version) (k : Str) (v : Version)
    → Distinct m
    → lookup k (purge_loop pack_id active n i m) ≡ some v
    → lookup k m ≡ some v
unfolding purge_loop lookup
purge_loop-sub pack_id active n i [] k v d h = h
purge_loop-sub pack_id active n i ((j, w) ∷ m) k v d h = ground (
  arith,
  purge_loop-sub pack_id active n i m k v d.1,
  purge_loop-sub pack_id active n (i + 1) m k v d.1,
  d.0,
  same_iff j k,
  h,
)

pub purge_loop-Distinct :
    (pack_id : Str) (active : Option Str) (n i : ℕ) (m : Map Version)
    → Distinct m
    → Distinct (purge_loop pack_id active n i m)
unfolding purge_loop
purge_loop-Distinct pack_id active n i [] d = tt
purge_loop-Distinct pack_id active n i ((j, w) ∷ m) d = ground (
  arith,
  purge_loop-Distinct pack_id active n i m d.1,
  purge_loop-Distinct pack_id active n (i + 1) m d.1,
  purge_loop-absent pack_id active n i m j d.0,
)

pub versions-purge :
    (pack_id : Str) (retention : ℤ) (r : Repo)
    → (purge_old_versions pack_id retention r).versions ≡ (
        if ltb_int retention (pos (count_versions pack_id r.versions))
        then purge_loop pack_id
            (lookup pack_id r.active_version)
            (count_versions pack_id r.versions + neg_part retention - pos_part retention)
            0
            r.versions
        else r.versions)
unfolding purge_old_versions
versions-purge pack_id retention r = ground arith

-- `PurgeOldVersions` with a retention of at least one leaves the pack with the smaller of its
-- number of versions and the retention, and changes no version that is the pack's active one or
-- another pack's.
pub purge_old_versions_lem :
    (pack_id : Str) (retention : ℤ) (r : Repo)
    → Distinct r.versions
    → 1 ≤ pos_part retention
    → (count_versions pack_id (purge_old_versions pack_id retention r).versions
        ≡ min (count_versions pack_id r.versions) (pos_part retention))
      × ((k : Str) (v : Version)
          → lookup k r.versions ≡ some v
          → (is_active (lookup pack_id r.active_version) k ≡ true)
            ⊎ (same v.rulepack_id pack_id ≡ false)
          → lookup k (purge_old_versions pack_id retention r).versions ≡ some v)
purge_old_versions_lem pack_id (negsuc n) r d h = ground (arith, h)
purge_old_versions_lem pack_id (pos n) r d h = (
  ground (
    arith,
    versions-purge pack_id (pos n) r,
    purge_loop-count pack_id active (count + 0 - n) 0 r.versions,
    count_active-le pack_id active r.versions d,
    count-le pack_id active r.versions,
    h,
  ),
  λ k v found keep. ground (
    arith,
    versions-purge pack_id (pos n) r,
    purge_loop-keeps pack_id active (count + 0 - n) 0 r.versions k v found keep,
    found,
  ),
)
  where
    active : Option Str
    active = lookup pack_id r.active_version

    count : ℕ
    count = count_versions pack_id r.versions
