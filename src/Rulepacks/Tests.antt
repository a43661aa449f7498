-- ===== src/Rulepacks/Tests.antt =====
-- Calls on the rulepack repository, and the theorems at them.
use promptshield_beta.Base.Text.{Str, bytes, same}
use promptshield_beta.Rulepacks.{
  Repo, new_repository, create_version_activate_tx, get_active, Version, count_versions,
  create_version, default_pack_id, purge_old_versions, nil_id, approved, no_active, is_active,
}
use promptshield_beta.Base.Map.{insert, lookup, is_some}
use promptshield_beta.Base.{◌++◌, ◌≡◌, inl, some, min, false, inr, ◌⊎◌, true, refl, arith}
use promptshield_beta.Base.Int.{pos}
use promptshield_beta.Rulepacks.Reach.{
  Reach, next, start, create_active_step, create_version_step, Reach-IsValid, start,
  create_active_step, create_version_step, get_active-Reach,
}
use promptshield_beta.Rulepacks.Purge.{purge_old_versions_lem}

abbrev version_id : Str → Str
version_id n = bytes "v" ++ n

-- The new repository with a second version, activated, and a third.
abbrev first : Repo
first = new_repository (version_id (bytes "1")) (bytes "rules") (pos 10)

abbrev second : Repo
second =
    (create_version_activate_tx (version_id (bytes "2")) (pos 20) default_pack_id (pos 2)
      (bytes "more") nil_id first).1

abbrev third : Repo
third =
    (create_version (version_id (bytes "3")) (pos 30) default_pack_id (pos 3) (bytes "most")
      approved nil_id second).1

new_2 : is_some (lookup (version_id (bytes "2")) first.versions) ≡ false
unfolding new_repository insert lookup same
new_2 = refl

new_3 : is_some (lookup (version_id (bytes "3")) second.versions) ≡ false
unfolding create_version_activate_tx new_repository insert lookup same
new_3 = refl

third-Reach : Reach third
third-Reach =
    next second third
      (next first second (start (version_id (bytes "1")) (bytes "rules") (pos 10))
        (create_active_step _ _ _ _ _ _ first new_2))
      (create_version_step _ _ _ _ _ _ _ second new_3)

get_active-Reach_example :
    (get_active default_pack_id third ≡ inl (no_active default_pack_id))
    ⊎ ((k : Str) × (v : Version) × (lookup k third.versions ≡ some v)
        × (v.rulepack_id ≡ default_pack_id)
        × (get_active default_pack_id third ≡ inr (v.dsl, v.version)))
get_active-Reach_example = get_active-Reach third default_pack_id third-Reach

purge_old_versions_lem_example :
    (count_versions default_pack_id (purge_old_versions default_pack_id (pos 1) third).versions
      ≡ min (count_versions default_pack_id third.versions) 1)
    × ((k : Str) (v : Version)
        → lookup k third.versions ≡ some v
        → (is_active (lookup default_pack_id third.active_version) k ≡ true)
          ⊎ (same v.rulepack_id default_pack_id ≡ false)
        → lookup k (purge_old_versions default_pack_id (pos 1) third).versions ≡ some v)
purge_old_versions_lem_example =
    purge_old_versions_lem default_pack_id (pos 1) third (Reach-IsValid third-Reach).keys
      (omega arith)
