-- ===== src/OrgService.antt =====
-- backend/internal/service/org/service.go. `i` is the value of `uuid.New()`, `now` the clock, `at`
-- NOW(); `to_lower` is `strings.ToLower`.
pub mod Members
pub mod Creator
use codity_assignment.Domain.Org.{Organization, Member, Role, owner}
use codity_assignment.Base.{Option, String, ℕ, Bool, List, some, ◌∷◌, none, map, []}
use codity_assignment.Exec.{Result, Exec, ok, err, pure, ◌>>◌, ◌>>=◌, attempt, raise}
use codity_assignment.Text.{trim_space}
use codity_assignment.Store.{Db}
use codity_assignment.Errors.{app_caused, internal}
use codity_assignment.OrgRepo

pub record OrgRequest : Type 0 where
  pub name : String
  pub slug : String
  pub description : String

pub record OrgUpdate : Type 0 where
  pub name : String
  pub description : String

pub record OrgResponse : Type 0 where
  pub id : ℕ
  pub name : String
  pub slug : String
  pub description : String
  pub created_at : ℕ
  pub updated_at : ℕ
  pub role : Option Role

pub record MemberResponse : Type 0 where
  pub user_id : ℕ
  pub user_email : String
  pub user_full_name : String
  pub role : Role
  pub joined_at : ℕ

unfoldable pub to_org_response : Organization → Option Role → OrgResponse
to_org_response o role = record {
  id = o.id;
  name = o.name;
  slug = o.slug;
  description = o.description;
  created_at = o.created_at;
  updated_at = o.updated_at;
  role = role;
}

unfoldable pub to_member_response : Member → MemberResponse
to_member_response m = record {
  user_id = m.user_id;
  user_email = m.user_email;
  user_full_name = m.user_full_name;
  role = m.role;
  joined_at = m.joined_at;
}

unfoldable pub new_org : (String → String) → OrgRequest → ℕ → ℕ → Organization
new_org to_lower r i now = record {
  id = i;
  name = trim_space r.name;
  slug = to_lower (trim_space r.slug);
  description = trim_space r.description;
  created_at = now;
  updated_at = now;
}

-- The organization is deleted again if its owner cannot be added; the error of that is ignored.
abbrev pub or_cleanup : ℕ → OrgResponse → Result (Unit {0}) → Exec Db OrgResponse
or_cleanup i answer (ok u) = pure answer
or_cleanup i answer (err e) = do
  attempt (OrgRepo.delete i)
  raise (app_caused internal "could not assign org owner" e)

unfoldable pub create : (String → String) → ℕ → OrgRequest → ℕ → ℕ → ℕ → Exec Db OrgResponse
unfolding new_org to_org_response
create to_lower owner_id r i now at = do
  OrgRepo.create (new_org to_lower r i now)
  added ← attempt (OrgRepo.add_member i owner_id owner at)
  or_cleanup i (to_org_response (new_org to_lower r i now) none) added

unfoldable pub get_by_id : ℕ → Exec Db OrgResponse
unfolding to_org_response
get_by_id i = do o ← OrgRepo.get_by_id i; pure (to_org_response o none)

abbrev role_found : Result Member → Option Role
role_found (ok m) = some m.role
role_found (err e) = none

unfoldable pub with_roles : ℕ → List Organization → Exec Db (List OrgResponse)
unfolding to_org_response
with_roles user_id [] = pure []
with_roles user_id (o ∷ os) = do
  found ← attempt (OrgRepo.get_member o.id user_id)
  rest ← with_roles user_id os
  pure (to_org_response o (role_found found) ∷ rest)

unfoldable pub list_for_user : (String → String → Bool) → ℕ → Exec Db (List OrgResponse)
unfolding with_roles
list_for_user before user_id = do
  orgs ← OrgRepo.list_by_user_id before user_id
  with_roles user_id orgs

abbrev org_changed : OrgUpdate → ℕ → Organization → Organization
org_changed r now o = record o {
  name = trim_space r.name;
  description = trim_space r.description;
  updated_at = now;
}

unfoldable pub update : ℕ → OrgUpdate → ℕ → Exec Db OrgResponse
unfolding to_org_response
update i r now = do
  o ← OrgRepo.get_by_id i
  OrgRepo.update (org_changed r now o)
  pure (to_org_response (org_changed r now o) none)

unfoldable pub delete : ℕ → Exec Db (Unit {0})
delete i = OrgRepo.delete i

unfoldable pub add_member : ℕ → ℕ → Role → ℕ → Exec Db MemberResponse
unfolding to_member_response
add_member org_id user_id role at = do
  OrgRepo.add_member org_id user_id role at
  m ← OrgRepo.get_member org_id user_id
  pure (to_member_response m)

unfoldable pub update_member_role : ℕ → ℕ → Role → Exec Db MemberResponse
unfolding to_member_response
update_member_role org_id user_id role = do
  OrgRepo.update_member_role org_id user_id role
  m ← OrgRepo.get_member org_id user_id
  pure (to_member_response m)

unfoldable pub remove_member : ℕ → ℕ → Exec Db (Unit {0})
remove_member org_id user_id = OrgRepo.remove_member org_id user_id

unfoldable pub list_members : ℕ → Exec Db (List MemberResponse)
unfolding to_member_response
list_members org_id = do ms ← OrgRepo.list_members org_id; pure (map to_member_response ms)
