-- ===== src/Services/RulepackService.antt =====
-- internal/application/services/rulepacks.go: the calls on the rulepack repository, and what each
-- of them publishes, audits and counts. One call runs at a time; the repository is the one in
-- memory.
mod Tests
pub mod Dsl
mod DslTests
pub mod Errors
pub mod Names
pub mod Activate
use promptshield_beta.Rulepacks
use promptshield_beta.Rulepacks.{
  Repo, RepoError, name_exists, create_version_activate_tx, purge_old_versions, nil_id,
  list_by_tenant, PackInfo, create_version, activate, approved,
}
use promptshield_beta.Rules.Complexity.{env_limit}
use promptshield_beta.Base.Int.{ℤ, pos, negsuc, is_pos}
use promptshield_beta.Base.Decimal.{atoi}
use promptshield_beta.Base.Text.{Str, bytes, same}
use promptshield_beta.Base.{
  Option, List, ◌∷◌, some, none, ℕ, ◌⊎◌, inl, inr, suc, [], Bool, if◌then◌else◌, false, ◌||◌, true,
}

-- One value of an event's data.
pub data Value : Type 0 where
  text : Str → Value
  number : ℤ → Value

-- audit.Event, as emitAudit fills it.
pub record Event : Type 0 where
  pub event_type : Str
  pub data_of : List (Str × Value)

pub record RuleUpdate : Type 0 where
  pub tenant_id : Str
  pub target_scope : Str
  pub rulepack_id : Str
  pub version : ℤ
  pub content_sha256 : Str

-- The repository, with what was published, audited and counted, the newest first.
pub record Service : Type 0 where
  pub repo : Repo
  pub published : List RuleUpdate
  pub audited : List Event
  pub activations : ℕ

-- What a call finds: the environment, whether a publisher and an audit logger are configured, the
-- SHA-256 of a text in hexadecimal, and the error of a context that is done during a delay.
pub record Context : Type 0 where
  pub getenv : Str → Str
  pub has_pub : Bool
  pub has_audit : Bool
  pub sha256 : Str → Str
  pub ctx_err : Option Str

pub data ServiceError : Type 0 where
  cancelled : Str → ServiceError
  from_repo : RepoError → ServiceError
  name_in_use : Str → ServiceError

unfoldable pub canary_delay : Context → Option ServiceError
canary_delay c = elim (atoi (c.getenv (bytes "PS_RULEPACK_CANARY_DELAY_SECONDS"))) [
  | none ↦ none
  | some secs ↦
      if is_pos secs then (elim c.ctx_err [ none ↦ none | some e ↦ some (cancelled e) ]) else none
]

-- emitAudit
unfoldable pub emit_audit : Context → Str → List (Str × Value) → Service → Service
emit_audit c event_type data_of s =
    if c.has_audit
    then record s { audited = record { event_type = event_type; data_of = data_of } ∷ s.audited }
    else s

unfoldable pub publish : Context → RuleUpdate → Service → Service
publish c u s = if c.has_pub then record s { published = u ∷ s.published } else s

unfoldable pub rule_update : Context → Str → Str → ℤ → Str → RuleUpdate
rule_update c tenant pack_id version dsl = record {
  tenant_id = tenant;
  target_scope = bytes "global";
  rulepack_id = pack_id;
  version = version;
  content_sha256 = c.sha256 dsl;
}

-- metrics.IncRulepackActivations
unfoldable pub count_activation : Service → Service
count_activation s = record s { activations = suc s.activations }

unfoldable pub retention_of : (Str → Str) → ℤ
unfolding env_limit
retention_of getenv = env_limit getenv (bytes "PS_RULEPACK_RETENTION") (pos 10)

-- CreateVersionActivate; `new_id` is the version's new uuid.
unfoldable pub create_version_activate :
    Context → Str → ℤ → Str → Str → ℤ → Str → Service → Option ServiceError × Service
unfolding canary_delay create_version_activate_tx count_activation publish rule_update retention_of
    purge_old_versions
create_version_activate c new_id now tenant pack_id version dsl s = elim (canary_delay c) [
  | some e ↦ (some e, s)
  | none ↦
      let (answer, r) = create_version_activate_tx new_id now pack_id version dsl nil_id s.repo in
      elim answer [
        | inl e ↦ (some (from_repo e), record s { repo = r })
        | inr ver_id ↦
            let sent : Service =
              publish c (rule_update c tenant pack_id version dsl)
                (count_activation (record s { repo = r })) in
            (
              none,
              record sent { repo = purge_old_versions pack_id (retention_of c.getenv) sent.repo },
            )
      ]
]

unfoldable pub has_name : Str → List PackInfo → Bool
has_name name [] = false
has_name name (p ∷ ps) = same p.name name || has_name name ps

-- errors.Is(err, ErrRulepackNameExists)
unfoldable pub create_error : Str → RepoError → ServiceError
create_error name name_exists = name_in_use name
create_error name e = from_repo e

unfoldable pub create :
    Context → Str → ℤ → Str → Str → Str → Service → (ServiceError ⊎ Str) × Service
unfolding list_by_tenant has_name Rulepacks.create emit_audit create_error
create c new_id now tenant name description s =
    if has_name name (list_by_tenant tenant s.repo)
    then (inl (name_in_use name), s)
    else let (answer, r) = Rulepacks.create new_id now tenant name description s.repo in
      elim answer [
        | inl e ↦ (inl (create_error name e), record s { repo = r })
        | inr id ↦ (
          inr id,
          emit_audit c (bytes "rulepack.create")
              ((bytes "tenant_id", text tenant)
                ∷ (bytes "rulepack_id", text id)
                ∷ (bytes "name", text name)
                ∷ [])
              (record s { repo = r }),
        )
      ]

-- Upload answers a version's id also where the activation fails.
unfoldable pub upload :
    Context → Str → ℤ → Str → Str → ℤ → Str → Bool → Service → (Option ServiceError × Str) × Service
unfolding create_version canary_delay activate count_activation publish rule_update emit_audit
upload c new_id now tenant pack_id version dsl wants_active s =
    let (answer, r) = create_version new_id now pack_id version dsl approved nil_id s.repo in
    let stored : Service = record s { repo = r } in
    let audit : Service → Service = emit_audit c (bytes "rulepack.upload") (
      (bytes "tenant_id", text tenant)
      ∷ (bytes "rulepack_id", text pack_id)
      ∷ (bytes "version", number version)
      ∷ (bytes "checksum", text (c.sha256 dsl))
      ∷ []) in
    elim answer [
      | inl e ↦ ((some (from_repo e), nil_id), stored)
      | inr ver_id ↦ elim wants_active [
        | false ↦ ((none, ver_id), audit stored)
        | true ↦ elim (canary_delay c) [
          | some e ↦ ((some e, ver_id), stored)
          | none ↦
              let (err, r') = activate pack_id ver_id r in
              let active : Service = record s { repo = r' } in
              elim err [
                | some e ↦ ((some (from_repo e), ver_id), active)
                | none ↦ (
                  (none, ver_id),
                  audit (
                      publish c (rule_update c tenant pack_id version dsl)
                        (count_activation active)),
                )
              ]
        ]
      ]
    ]

-- The update of the version that is active after an activation, if GetActive finds it.
unfoldable pub publish_active : Context → Str → Str → Service → Service
unfolding Rulepacks.get_active publish rule_update
publish_active c tenant pack_id s = elim (Rulepacks.get_active pack_id s.repo) [
  | inl e ↦ s
  | inr (dsl, version) ↦ publish c (rule_update c tenant pack_id version dsl) s
]

unfoldable pub set_active : Context → Str → Str → Str → Service → Option ServiceError × Service
unfolding canary_delay activate count_activation publish_active
set_active c tenant pack_id version_id s = elim (canary_delay c) [
  | some e ↦ (some e, s)
  | none ↦
      let (err, r) = activate pack_id version_id s.repo in
      elim err [
        | some e ↦ (some (from_repo e), record s { repo = r })
        | none ↦ (none, publish_active c tenant pack_id (count_activation (record s { repo = r })))
      ]
]

unfoldable pub activate_latest : Context → Str → Str → Service → Option ServiceError × Service
unfolding canary_delay Rulepacks.activate_latest count_activation publish_active emit_audit
activate_latest c tenant pack_id s = elim (canary_delay c) [
  | some e ↦ (some e, s)
  | none ↦
      let (err, r) = Rulepacks.activate_latest pack_id s.repo s.repo in
      elim err [
        | some e ↦ (some (from_repo e), record s { repo = r })
        | none ↦ (
          none,
          publish_active c tenant pack_id (
              emit_audit c (bytes "rulepack.activate")
                ((bytes "tenant_id", text tenant) ∷ (bytes "rulepack_id", text pack_id) ∷ [])
                (count_activation (record s { repo = r }))),
        )
      ]
]

unfoldable pub delete : Context → Str → Str → Service → Option ServiceError × Service
unfolding Rulepacks.delete publish emit_audit
delete c tenant pack_id s =
    let (err, r) = Rulepacks.delete pack_id s.repo in
    let deleted : RuleUpdate = record {
      tenant_id = tenant;
      target_scope = bytes "global";
      rulepack_id = pack_id;
      version = negsuc 0;
      content_sha256 = [];
    } in
    elim err [
      | some e ↦ (some (from_repo e), record s { repo = r })
      | none ↦ (
        none,
        emit_audit c (bytes "rulepack.delete")
            ((bytes "tenant_id", text tenant) ∷ (bytes "rulepack_id", text pack_id) ∷ [])
            (publish c deleted (record s { repo = r })),
      )
    ]

unfoldable pub get_active : Str → Service → RepoError ⊎ (Str × ℤ)
unfolding Rulepacks.get_active
get_active pack_id s = Rulepacks.get_active pack_id s.repo

unfoldable pub get_version : Str → ℤ → Service → RepoError ⊎ (Str × Str)
unfolding Rulepacks.get_version
get_version pack_id version s = Rulepacks.get_version pack_id version s.repo

unfoldable pub list : Str → Service → List PackInfo
unfolding list_by_tenant
list tenant s = list_by_tenant tenant s.repo
