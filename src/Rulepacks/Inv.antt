-- ===== src/Rulepacks/Inv.antt =====
-- internal/infrastructure/persistence/memory/rulepack_repository.go: what every state of the
-- repository satisfies while a pack activates versions of its own.
use promptshield_beta.Rulepacks.{
  Repo, delete_versions, create, activate, delete, purge_old_versions, Version, RepoError,
  count_versions, name_taken, is_active,
}
use promptshield_beta.Base.Map.{
  Distinct, lookup, Map, is_some, insert, insert-Distinct, lookup-insert, lookup-remove,
  is_some-insert,
}
use promptshield_beta.Base.Text.{Str, same, same_iff, eq_of_same, same_refl}
use promptshield_beta.Base.{
  ◌≡◌, some, false, ◌∷◌, true, arith, [], if-holds, Bool-cases, Option, ℕ, inl, ◌⊎◌, not, inr, ◌+◌,
  ◌-◌, subst, sym, ◌∙◌,
}
use promptshield_beta.Base.Int.{ℤ, neg_part, pos_part, ltb_int, pos}
use promptshield_beta.Rulepacks.Purge.{purge_loop-Distinct, purge_loop-sub, purge_loop-keeps}

pub record IsValid (r : Repo) : Type 0 where
  pub keys : Distinct r.versions
  pub keyed : (k : Str) (v : Version) → lookup k r.versions ≡ some v → v.id ≡ k
  pub active_exists :
      (p k : Str)
      → lookup p r.active_version ≡ some k
      → (is_some (lookup p r.rulepacks) ≡ true)
        × ((v : Version) × (lookup k r.versions ≡ some v) × (v.rulepack_id ≡ p))

-- `Delete`: the versions of other packs stay.
delete_versions-keeps :
    (p : Str) (m : Map Version) (k : Str) (v : Version)
    → lookup k m ≡ some v
    → same v.rulepack_id p ≡ false
    → lookup k (delete_versions p m) ≡ some v
unfolding delete_versions lookup
delete_versions-keeps p [] k v h ne = h
delete_versions-keeps p ((j, w) ∷ m) k v h ne =
    ground (arith, delete_versions-keeps p m k v, same_iff j k, h, ne)

delete_versions-absent :
    (p : Str) (m : Map Version) (k : Str)
    → is_some (lookup k m) ≡ false
    → is_some (lookup k (delete_versions p m)) ≡ false
unfolding delete_versions lookup
delete_versions-absent p [] k h = h
delete_versions-absent p ((j, w) ∷ m) k h = ground (arith, delete_versions-absent p m k, h)

-- What is left was there, and is not the pack's.
delete_versions-sub :
    (p : Str) (m : Map Version) (k : Str) (v : Version)
    → Distinct m
    → lookup k (delete_versions p m) ≡ some v
    → (lookup k m ≡ some v) × (same v.rulepack_id p ≡ false)
unfolding delete_versions lookup
delete_versions-sub p [] k v d h = ground (arith, h)
delete_versions-sub p ((j, w) ∷ m) k v d h =
    ground (arith, delete_versions-sub p m k v d.1, d.0, same_iff j k, h)

delete_versions-Distinct : (p : Str) (m : Map Version) → Distinct m → Distinct (delete_versions p m)
unfolding delete_versions
delete_versions-Distinct p [] d = tt
delete_versions-Distinct p ((j, w) ∷ m) d =
    ground (arith, delete_versions-Distinct p m d.1, delete_versions-absent p m j d.0)

pub create-IsValid :
    (id : Str) (now : ℤ) (tenant name desc : Str) (r : Repo)
    → IsValid r
    → IsValid (create id now tenant name desc r).1
unfolding create
create-IsValid id now tenant name desc r valid =
    if-holds (λ (res : (RepoError ⊎ Str) × Repo). IsValid res.1)
      (name_taken tenant name r.rulepacks) _ _ (λ e. valid)
      (λ e. record {
        keys = valid.keys;
        keyed = valid.keyed;
        active_exists = λ p k h.
            let old = valid.active_exists p k h in (is_some-insert id p _ r.rulepacks old.0, old.1);
      })

pub add_version-IsValid :
    (r : Repo) (ver : Version)
    → is_some (lookup ver.id r.versions) ≡ false
    → IsValid r
    → IsValid (record r { versions = insert ver.id ver r.versions })
add_version-IsValid r ver fresh valid = record {
  keys = insert-Distinct ver.id ver r.versions valid.keys;
  keyed = λ k v h.
      ground (arith, lookup-insert ver.id k ver r.versions, valid.keyed k v, same_iff ver.id k, h);
  active_exists = λ p k h.
      let old = valid.active_exists p k h in
      (
        old.0,
        (
          old.1.0,
          ground (arith, old.1.1, lookup-insert ver.id k ver r.versions, same_iff ver.id k, fresh),
          old.1.2,
        ),
      );
}

pub set_active-IsValid :
    (p k : Str) (v : Version) (r : Repo)
    → is_some (lookup p r.rulepacks) ≡ true
    → lookup k r.versions ≡ some v
    → v.rulepack_id ≡ p
    → IsValid r
    → IsValid (record r { active_version = insert p k r.active_version })
set_active-IsValid p k v r known found own valid = record {
  keys = valid.keys;
  keyed = valid.keyed;
  active_exists = λ q j h. elim (Bool-cases (same p q)) [
    | inl e ↦ (
      ground (arith, e, same_iff p q, known),
      (
        v,
        ground (arith, e, lookup-insert p q k r.active_version, h, found),
        ground (arith, e, same_iff p q, own),
      ),
    )
    | inr ne ↦ valid.active_exists q j (ground (arith, ne, lookup-insert p q k r.active_version, h))
  ];
}

pub activate-IsValid :
    (p k : Str) (v : Version) (r : Repo)
    → lookup k r.versions ≡ some v
    → v.rulepack_id ≡ p
    → IsValid r
    → IsValid (activate p k r).1
unfolding activate
activate-IsValid p k v r found own valid =
    if-holds (λ (res : Option RepoError × Repo). IsValid res.1)
      (not (is_some (lookup p r.rulepacks))) _ _ (λ e. valid)
      (λ known.
        if-holds (λ (res : Option RepoError × Repo). IsValid res.1)
          (not (is_some (lookup k r.versions))) _ _ (λ e. valid)
          (λ e. set_active-IsValid p k v r (ground (arith, known)) found own valid))

pub delete-IsValid : (p : Str) (r : Repo) → IsValid r → IsValid (delete p r).1
unfolding delete
delete-IsValid p r valid =
    if-holds (λ (res : Option RepoError × Repo). IsValid res.1) (is_some (lookup p r.rulepacks)) _ _
      (λ known. record {
        keys = delete_versions-Distinct p r.versions valid.keys;
        keyed = λ k v h. valid.keyed k v (delete_versions-sub p r.versions k v valid.keys h).0;
        active_exists = λ q k h.
            let ne : same p q ≡ false = ground (arith, lookup-remove p q r.active_version, h) in
            let old =
              valid.active_exists q k (ground (arith, lookup-remove p q r.active_version, h)) in
            (
              ground (arith, ne, lookup-remove p q r.rulepacks, old.0),
              (
                old.1.0,
                delete_versions-keeps p r.versions k old.1.0 old.1.1
                    (ground (arith, ne, old.1.2, same_iff old.1.0.rulepack_id p, same_iff p q)),
                old.1.2,
              ),
            );
      })
      (λ e. valid)

pub purge-IsValid :
    (p : Str) (retention : ℤ) (r : Repo) → IsValid r → IsValid (purge_old_versions p retention r)
unfolding purge_old_versions
purge-IsValid p retention r valid =
    if-holds IsValid (ltb_int retention (pos (count_versions p r.versions))) _ _
      (λ over. record {
        keys = purge_loop-Distinct p active n 0 r.versions valid.keys;
        keyed = λ k v h. valid.keyed k v (purge_loop-sub p active n 0 r.versions k v valid.keys h);
        active_exists = λ q k h.
            let old = valid.active_exists q k h in
            (
              old.0,
              (
                old.1.0,
                purge_loop-keeps p active n 0 r.versions k old.1.0 old.1.1
                    (kept q k h old.1.0 old.1.2),
                old.1.2,
              ),
            );
      })
      (λ e. valid)
  where
    active : Option Str
    active = lookup p r.active_version

    n : ℕ
    n = count_versions p r.versions + neg_part retention - pos_part retention

    kept :
        (q k : Str)
        → lookup q r.active_version ≡ some k
        → (v : Version) → v.rulepack_id ≡ q
        → (is_active active k ≡ true) ⊎ (same v.rulepack_id p ≡ false)
    kept q k h v own = elim (Bool-cases (same v.rulepack_id p)) [
      | inr ne ↦ inr ne
      | inl e ↦ inl (
          subst (λ (a : Option Str). is_active a k ≡ true)
            (sym (
              subst (λ (z : Str). lookup z r.active_version ≡ some k)
                (sym own ∙ eq_of_same v.rulepack_id p e) h))
            (unfold is_active in same_refl k))
    ]
