-- ===== src/Services/RulepackService/Errors.antt =====
-- internal/application/services/rulepacks.go: what is left of a call that fails.
use promptshield_beta.Base.Text.{Str}
use promptshield_beta.Rulepacks.{
  activate, create_version_activate_tx, create_version, approved, nil_id,
}
use promptshield_beta.Base.Int.{ℤ}
use promptshield_beta.Rulepacks
use promptshield_beta.Services.RulepackService.{
  create, delete, set_active, activate_latest, create_version_activate, upload, ServiceError,
  Context, Service,
}
use promptshield_beta.Base.{Option, some, none, ◌⊎◌, ◌≡◌, Bool, arith, inl, inr}

-- The calls that change the state.
pub data Call : Type 0 where
  create_call : (new_id : Str) (now : ℤ) (tenant name description : Str) → Call
  upload_call :
      (new_id : Str) (now : ℤ) (tenant pack_id : Str) (version : ℤ) (dsl : Str)
      (wants_active : Bool)
      → Call
  create_active_call :
      (new_id : Str) (now : ℤ) (tenant pack_id : Str) (version : ℤ) (dsl : Str) → Call
  set_active_call : (tenant pack_id version_id : Str) → Call
  activate_latest_call : (tenant pack_id : Str) → Call
  delete_call : (tenant pack_id : Str) → Call

abbrev pub error_of : ServiceError ⊎ Str → Option ServiceError
error_of (inl e) = some e
error_of (inr id) = none

-- The error, if any, and the state.
abbrev pub run : Context → Call → Service → Option ServiceError × Service
run c (create_call new_id now tenant name description) s =
    let (answer, t) = create c new_id now tenant name description s in (error_of answer, t)
run c (upload_call new_id now tenant pack_id version dsl wants_active) s =
    let (answer, t) = upload c new_id now tenant pack_id version dsl wants_active s in (answer.0, t)
run c (create_active_call new_id now tenant pack_id version dsl) s =
    create_version_activate c new_id now tenant pack_id version dsl s
run c (set_active_call tenant pack_id version_id) s = set_active c tenant pack_id version_id s
run c (activate_latest_call tenant pack_id) s = activate_latest c tenant pack_id s
run c (delete_call tenant pack_id) s = delete c tenant pack_id s

-- The state, where an upload's version is stored.
abbrev pub left_by : Call → Service → Service
left_by (upload_call new_id now tenant pack_id version dsl wants_active) s = record s {
  repo = (create_version new_id now pack_id version dsl approved nil_id s.repo).1;
}
left_by call s = s

set_active-error :
    (c : Context) (tenant pack_id version_id : Str) (s : Service) (e : ServiceError)
    → (set_active c tenant pack_id version_id s).0 ≡ some e
    → (set_active c tenant pack_id version_id s).1 ≡ s
unfolding set_active activate
set_active-error c tenant pack_id version_id s e h = ground (arith, h)

delete-error :
    (c : Context) (tenant pack_id : Str) (s : Service) (e : ServiceError)
    → (delete c tenant pack_id s).0 ≡ some e
    → (delete c tenant pack_id s).1 ≡ s
unfolding delete Rulepacks.delete
delete-error c tenant pack_id s e h = ground (arith, h)

activate_latest-error :
    (c : Context) (tenant pack_id : Str) (s : Service) (e : ServiceError)
    → (activate_latest c tenant pack_id s).0 ≡ some e
    → (activate_latest c tenant pack_id s).1 ≡ s
unfolding activate_latest Rulepacks.activate_latest activate
activate_latest-error c tenant pack_id s e h = ground (arith, h)

create_version_activate-error :
    (c : Context) (new_id : Str) (now : ℤ) (tenant pack_id : Str) (version : ℤ) (dsl : Str)
    (s : Service) (e : ServiceError)
    → (create_version_activate c new_id now tenant pack_id version dsl s).0 ≡ some e
    → (create_version_activate c new_id now tenant pack_id version dsl s).1 ≡ s
unfolding create_version_activate create_version_activate_tx
create_version_activate-error c new_id now tenant pack_id version dsl s e h = ground (arith, h)

create-error :
    (c : Context) (new_id : Str) (now : ℤ) (tenant name description : Str) (s : Service)
    (e : ServiceError)
    → error_of (create c new_id now tenant name description s).0 ≡ some e
    → (create c new_id now tenant name description s).1 ≡ s
unfolding create Rulepacks.create
create-error c new_id now tenant name description s e h = ground (arith, h)

upload-error :
    (c : Context) (new_id : Str) (now : ℤ) (tenant pack_id : Str) (version : ℤ) (dsl : Str)
    (wants_active : Bool) (s : Service) (e : ServiceError)
    → (upload c new_id now tenant pack_id version dsl wants_active s).0.0 ≡ some e
    → (upload c new_id now tenant pack_id version dsl wants_active s).1
      ≡ left_by (upload_call new_id now tenant pack_id version dsl wants_active) s
unfolding upload create_version activate
upload-error c new_id now tenant pack_id version dsl wants_active s e h = ground (arith, h)

-- A call that fails leaves everything as it was, and publishes, audits and counts nothing; only an
-- upload whose activation fails leaves its version stored.
pub run-error :
    (c : Context) (call : Call) (s : Service) (e : ServiceError)
    → (run c call s).0 ≡ some e
    → (run c call s).1 ≡ left_by call s
run-error c (create_call new_id now tenant name description) s e h =
    create-error c new_id now tenant name description s e h
run-error c (upload_call new_id now tenant pack_id version dsl wants_active) s e h =
    upload-error c new_id now tenant pack_id version dsl wants_active s e h
run-error c (create_active_call new_id now tenant pack_id version dsl) s e h =
    create_version_activate-error c new_id now tenant pack_id version dsl s e h
run-error c (set_active_call tenant pack_id version_id) s e h =
    set_active-error c tenant pack_id version_id s e h
run-error c (activate_latest_call tenant pack_id) s e h =
    activate_latest-error c tenant pack_id s e h
run-error c (delete_call tenant pack_id) s e h = delete-error c tenant pack_id s e h
