-- ===== src/Services/RulepackService/Names.antt =====
-- internal/application/services/rulepacks.go: the two checks of a new pack's name.
use promptshield_beta.Rulepacks
use promptshield_beta.Services.RulepackService.{
  create, has_name, emit_audit, create_error, Context, Service, name_in_use,
}
use promptshield_beta.Rulepacks.{list_by_tenant, infos, name_taken, pack_info, Repo, Pack, nil_id}
use promptshield_beta.Base.Text.{Str, same}
use promptshield_beta.Base.Int.{ℤ}
use promptshield_beta.Base.Map.{Map}
use promptshield_beta.Base.{◌≡◌, false, arith, if◌then◌else◌, ◌∷◌, inl, [], refl, inr}

-- The service's walk over the listed packs finds what the repository's finds.
has_name-infos :
    (tenant name : Str) (r : Repo) (m : Map Pack)
    → same tenant nil_id ≡ false
    → has_name name (infos tenant r m) ≡ name_taken tenant name m
unfolding has_name infos name_taken pack_info
has_name-infos tenant name r [] h = refl
has_name-infos tenant name r ((k, p) ∷ m) h =
    let rest = has_name-infos tenant name r m h in ground (arith, rest, h)

-- For a tenant that is not the nil uuid the service's check decides as the repository's does:
-- Create answers as the repository does, and the error of the repository never arises from it.
create_lem :
    (c : Context) (new_id : Str) (now : ℤ) (tenant name description : Str) (s : Service)
    → same tenant nil_id ≡ false
    → ((create c new_id now tenant name description s).0
        ≡ (if name_taken tenant name s.repo.rulepacks then inl (name_in_use name) else inr new_id))
      × ((create c new_id now tenant name description s).1.repo
          ≡ (Rulepacks.create new_id now tenant name description s.repo).1)
unfolding create Rulepacks.create list_by_tenant emit_audit create_error
create_lem c new_id now tenant name description s h =
    ground (arith, has_name-infos tenant name s.repo s.repo.rulepacks h)
