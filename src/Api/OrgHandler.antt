-- ===== src/Api/OrgHandler.antt =====
-- backend/internal/handler/org/handler.go. `user` is GetUserID(c).
use codity_assignment.Base.{ℕ, String}
use codity_assignment.Api.Site.{Site, Moment}
use codity_assignment.Api.{
  Request, Params, uuid_param, Response, or_respond, read_body, reply, done, success, created,
  org_members, org_member, organizations, organization,
}
use codity_assignment.Exec.{Exec, Result}
use codity_assignment.Store.{Db}
use codity_assignment.OrgService

module _ (site : Site) (req : Request) (at : Moment) where
  abbrev id_in : Params → String → Result ℕ
  id_in ps name = uuid_param site.parse_uuid ps name

  unfoldable pub create : ℕ → Exec Db Response
  create user = read_body site.org_body "malformed JSON" req (λ b.
      reply (λ o. created (organization o))
        (OrgService.create site.auth.to_lower user b at.id at.now at.at))

  unfoldable pub get : Params → Exec Db Response
  get ps =
      or_respond (id_in ps "orgId")
        (λ i. reply (λ o. success (organization o)) (OrgService.get_by_id i))

  unfoldable pub list : ℕ → Exec Db Response
  list user = reply (λ os. success (organizations os)) (OrgService.list_for_user site.before user)

  unfoldable pub update : Params → Exec Db Response
  update ps = or_respond (id_in ps "orgId") (λ i.
      read_body site.org_update_body "malformed JSON" req
        (λ b. reply (λ o. success (organization o)) (OrgService.update i b at.now)))

  unfoldable pub delete : Params → Exec Db Response
  delete ps = or_respond (id_in ps "orgId") (λ i. reply done (OrgService.delete i))

  unfoldable pub add_member : Params → Exec Db Response
  add_member ps = or_respond (id_in ps "orgId") (λ i.
      read_body site.member_body "malformed JSON" req
        (λ b. reply (λ m. created (org_member m)) (OrgService.add_member i b.user_id b.role at.at)))

  unfoldable pub update_member_role : Params → Exec Db Response
  update_member_role ps = or_respond (id_in ps "orgId") (λ i. or_respond (id_in ps "userId") (λ u.
      read_body site.role_body "malformed JSON" req
        (λ r. reply (λ m. success (org_member m)) (OrgService.update_member_role i u r))))

  unfoldable pub remove_member : Params → Exec Db Response
  remove_member ps =
      or_respond (id_in ps "orgId")
        (λ i. or_respond (id_in ps "userId") (λ u. reply done (OrgService.remove_member i u)))

  unfoldable pub list_members : Params → Exec Db Response
  list_members ps =
      or_respond (id_in ps "orgId")
        (λ i. reply (λ ms. success (org_members ms)) (OrgService.list_members i))
