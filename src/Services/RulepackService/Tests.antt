-- ===== src/Services/RulepackService/Tests.antt =====
-- A service over the default pack.
use promptshield_beta.Services.RulepackService.{
  create_version_activate, Context, Service, canary_delay, upload, cancelled,
}
use promptshield_beta.Base.Text.{same}
use promptshield_beta.Base.Map.{lookup, insert, is_some, Distinct}
use promptshield_beta.Rulepacks.{new_repository, default_pack_id, create_version}
use promptshield_beta.Services.RulepackService.Activate.{IsActivated, create_version_activate_lem}
use promptshield_beta.Services.RulepackService.Errors.{Call, run, upload_call, left_by, run-error}
use promptshield_beta.Base.Int.{pos}
use promptshield_beta.Base.{[], some, ◌≡◌, true, none, refl}
use promptshield_beta.Base.Decimal.{atoi}
use promptshield_beta.Base.Text.{bytes}

abbrev plain : Context
plain = record {
  getenv = λ name. [];
  has_pub = true;
  has_audit = true;
  sha256 = λ text. text;
  ctx_err = none;
}

-- A delay of a second, with a context that is done.
abbrev impatient : Context
impatient = record plain { getenv = λ name. bytes "1"; ctx_err = some (bytes "context canceled") }

abbrev new_service : Service
new_service = record {
  repo = new_repository (bytes "v1") (bytes "rules") (pos 0);
  published = [];
  audited = [];
  activations = 0;
}

plain-calm : canary_delay plain ≡ none
unfolding canary_delay atoi
plain-calm = refl

default-known : is_some (lookup default_pack_id new_service.repo.rulepacks) ≡ true
unfolding lookup insert new_repository same
default-known = refl

versions-Distinct : Distinct new_service.repo.versions
unfolding new_repository insert lookup
versions-Distinct = (refl, tt)

create_version_activate_lem_example :
    IsActivated plain (bytes "t") default_pack_id (pos 2) (bytes "more") new_service (
      create_version_activate plain
        (bytes "v2")
        (pos 5)
        (bytes "t")
        default_pack_id
        (pos 2)
        (bytes "more")
        new_service)
create_version_activate_lem_example =
    create_version_activate_lem plain (bytes "v2") (pos 5) (bytes "t") default_pack_id (pos 2)
      (bytes "more") new_service versions-Distinct plain-calm default-known

abbrev late : Call
late = upload_call (bytes "v2") (pos 5) (bytes "t") default_pack_id (pos 2) (bytes "more") true

late-fails : (run impatient late new_service).0 ≡ some (cancelled (bytes "context canceled"))
unfolding upload canary_delay create_version lookup new_repository insert atoi same
late-fails = refl

run-error_example : (run impatient late new_service).1 ≡ left_by late new_service
run-error_example =
    run-error impatient late new_service (cancelled (bytes "context canceled")) late-fails
