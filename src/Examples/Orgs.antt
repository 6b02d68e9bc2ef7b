-- ===== src/Examples/Orgs.antt =====
-- The theorems on organizations and projects at concrete tables.
use codity_assignment.Base.{refl, none, String, true, ◌≡◌, [], false, any_row, first_row}
use codity_assignment.Domain.User.{User}
use codity_assignment.Domain.Project.{Project}
use codity_assignment.Domain.Org.{Role, owner}
use codity_assignment.ProjectService.{rotate_api_key}
use codity_assignment.Exec.{World, ok, err, ◌>>=◌, ◌>>◌, map_err, sql, query}
use codity_assignment.Access.{require_org_role}
use codity_assignment.OrgService.Members.{member_roles}
use codity_assignment.Store.{Db, empty_db}
use codity_assignment.OrgService.Creator.{create-owner, create-undone}
use codity_assignment.Errors.{
  app_caused, app, internal, unauthorized, not_found, is_foreign_key_violation,
}
use codity_assignment.Examples.{alone}
use codity_assignment.ProjectService.Rotation.{rotate_api_key-opens}
use codity_assignment.Text.{trim_space, is_space}
use codity_assignment.OrgRepo
use codity_assignment.ProjectRepo
use codity_assignment.OrgService

abbrev founder : User
founder = record {
  id = 3;
  email = "f@x.io";
  password_hash = "";
  full_name = "F";
  is_active = true;
  created_at = 0;
  updated_at = 0;
}

abbrev acme : OrgService.OrgRequest
acme = record { name = "Acme"; slug = "acme"; description = "" }

abbrev no_orgs : World Db
no_orgs = record { db = record empty_db { users = alone founder }; calls = 0; down = λ n. false }

abbrev same_text : String → String
same_text s = s

abbrev acme_response : OrgService.OrgResponse
acme_response = record {
  id = 8;
  name = "Acme";
  slug = "acme";
  description = "";
  created_at = 50;
  updated_at = 50;
  role = none;
}

abbrev founded : World Db
founded = (OrgService.create same_text 3 acme 8 50 51 no_orgs).1

create-owner_example : require_org_role (member_roles founded) Role.owner (ok 8) 3 ≡ ok owner
unfolding OrgService.create any_row ◌>>◌ OrgRepo.create map_err sql OrgRepo.add_member trim_space
    is_space
create-owner_example =
    create-owner same_text 3 acme 8 50 51 acme_response Role.owner no_orgs founded refl (λ n. refl)
      refl refl refl

-- A creator that is no user.
create-undone_example : (OrgService.create same_text 4 acme 8 50 51 no_orgs).1.db.orgs ≡ []
unfolding OrgService.create ◌>>◌ OrgRepo.create map_err sql any_row OrgRepo.add_member
    is_foreign_key_violation
create-undone_example =
    create-undone same_text 4 acme 8 50 51 no_orgs
      (app_caused internal "could not assign org owner" (app not_found "user not found"))
      (λ n. refl) refl

abbrev web : Project
web = record {
  id = 9;
  org_id = 8;
  name = "Web";
  slug = "web";
  description = "";
  api_key_hash = "old";
  api_key_prefix = "sk_";
  is_active = true;
  created_at = 0;
  updated_at = 0;
}

abbrev projects : World Db
projects = record { db = record empty_db { projects = alone web }; calls = 0; down = λ n. false }

abbrev after_rotation : World Db
after_rotation = (rotate_api_key same_text 9 (ok "0123456789abcdef") 60 projects).1

rotate_api_key-opens_example :
    ((r : Project) × (((ProjectRepo.get_by_api_key_hash "sk_0123456789abcdef" after_rotation).0
          ≡ ok r)
        × (r.id ≡ 9)))
    × ((ProjectRepo.get_by_api_key_hash "old" after_rotation).0
        ≡ err (app unauthorized "invalid API key"))
unfolding rotate_api_key ◌>>=◌ ProjectRepo.get_by_id map_err query first_row ◌>>◌ ProjectRepo.update
    any_row
rotate_api_key-opens_example =
    rotate_api_key-opens same_text 9 "0123456789abcdef" 60
      (record { api_key = "sk_0123456789abcdef"; api_key_prefix = "sk_0123456789ab..." }) web
      projects after_rotation refl refl refl refl refl refl refl
