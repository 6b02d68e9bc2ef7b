-- ===== src/Api/ProjectHandler.antt =====
-- backend/internal/handler/project/handler.go. `user` is GetUserID(c).
use codity_assignment.Base.{String, ℕ}
use codity_assignment.Api.Site.{Site, Moment}
use codity_assignment.Api.{
  Request, Params, Response, uuid_param, or_respond, created, keyed_project, reply, read_body, done,
  success, project, projects, api_key,
}
use codity_assignment.ProjectService.{ProjectResponse, ApiKey}
use codity_assignment.Exec.{Exec, Result}
use codity_assignment.Store.{Db}
use codity_assignment.ProjectService

module _ (site : Site) (req : Request) (at : Moment) where
  abbrev id_in : Params → String → Result ℕ
  id_in ps name = uuid_param site.parse_uuid ps name

  abbrev keyed : ProjectResponse × ApiKey → Response
  keyed (p, k) = created (keyed_project p k)

  unfoldable pub create : Params → ℕ → Exec Db Response
  create ps user = or_respond (id_in ps "orgId") (λ i.
      read_body site.project_body "malformed JSON" req (λ b. reply keyed (
        ProjectService.create site.auth.sha256_hex site.auth.to_lower i user b at.random at.id
          at.now at.at)))

  unfoldable pub get : Params → Exec Db Response
  get ps =
      or_respond (id_in ps "projectId")
        (λ i. reply (λ p. success (project p)) (ProjectService.get_by_id i))

  unfoldable pub list : Params → Exec Db Response
  list ps =
      or_respond (id_in ps "orgId")
        (λ i. reply (λ found. success (projects found)) (ProjectService.list_by_org site.before i))

  unfoldable pub update : Params → Exec Db Response
  update ps = or_respond (id_in ps "projectId") (λ i.
      read_body site.project_update_body "malformed JSON" req
        (λ b. reply (λ p. success (project p)) (ProjectService.update i b at.now)))

  unfoldable pub delete : Params → Exec Db Response
  delete ps = or_respond (id_in ps "projectId") (λ i. reply done (ProjectService.delete i))

  unfoldable pub rotate_api_key : Params → Exec Db Response
  rotate_api_key ps = or_respond (id_in ps "projectId") (λ i.
      reply (λ k. success (api_key k))
        (ProjectService.rotate_api_key site.auth.sha256_hex i at.random at.now))
