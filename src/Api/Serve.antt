-- ===== src/Api/Serve.antt =====
-- A request on its way through the registered middleware and handlers: the middleware of
-- backend/internal/middleware/auth.go, and the handlers of Routes. The HTTP framework is a
-- parameter: it says whether a path fits a registration, with the values of its parameters, and
-- what it answers where no route is found. `user` is GetUserID(c): 0 is uuid.Nil, before
-- AuthRequired has set it.
pub mod Guards
pub mod Admission
pub mod Paths
pub mod Enqueuers
pub mod Enqueued
pub mod Nested
pub mod Founder
pub mod Promoted
use codity_assignment.Base.{
  refl, Bool, List, String, ℕ, Option, some, ◌∷◌, none, true, [], if◌then◌else◌, str_eq, false,
}
use codity_assignment.Api.Site.{Site, Moment}
use codity_assignment.Exec.{Result, ok, err, World, Exec, lift, pure, ◌>>=◌, raise, attempt}
use codity_assignment.Api.{Request, Params, uuid_or, Response, finish, uuid_param, error_response}
use codity_assignment.Api.Routes.{
  Segment, Guard, Endpoint, Registration, org_role, auth_register, group, routes, auth_login,
  auth_refresh, auth_logout, route, org_create, org_list, org_get, org_members_list, org_update,
  org_add_member, org_member_role, org_remove_member, org_delete, project_list, project_create,
  project_get, project_update, project_delete, project_rotate, queue_list, queue_create, queue_get,
  queue_stats_get, queue_update, queue_pause, queue_resume, queue_delete, job_list, job_enqueue,
  job_get, job_cancel, job_retry, batch_create, batch_get, cron_create, cron_list, cron_delete,
  project_role, signed_in,
}
use codity_assignment.Access.Bearer.{auth_required}
use codity_assignment.Store.{Db}
use codity_assignment.Errors.{app, invalid_input}
use codity_assignment.Access.{require_org_role, require_project_role}
use codity_assignment.Api.OrgHandler
use codity_assignment.Api.ProjectHandler
use codity_assignment.Api.QueueHandler
use codity_assignment.Api.JobHandler
use codity_assignment.Api.AuthHandler
use codity_assignment.Api.BatchHandler
use codity_assignment.Api.CronHandler
use codity_assignment.OrgRepo
use codity_assignment.ProjectRepo
use codity_assignment.Domain.Org
use codity_assignment.Domain.Project

-- `matched true` is for the prefix of a group, `matched false` for a whole path.
pub record Router : Type 0 where
  pub matched : Bool → List Segment → List String → Option Params
  pub unrouted : Response

abbrev pub role_of : {A B : Type 0} → (A → B) → Result A → Result B
role_of f (ok m) = ok (f m)
role_of f (err e) = err e

abbrev pub for_method : Bool → Option Params → Option Params
for_method same none = none
for_method same (some ps) = if same then some ps else none

module _ (site : Site) (req : Request) (at : Moment) where
  unfoldable pub handle : Endpoint → Params → ℕ → Exec Db Response
  handle auth_register ps user = AuthHandler.register site req at
  handle auth_login ps user = AuthHandler.login site req at
  handle auth_refresh ps user = AuthHandler.refresh site req at
  handle auth_logout ps user = AuthHandler.logout site req at
  handle org_create ps user = OrgHandler.create site req at user
  handle org_list ps user = OrgHandler.list site req at user
  handle org_get ps user = OrgHandler.get site req at ps
  handle org_members_list ps user = OrgHandler.list_members site req at ps
  handle org_update ps user = OrgHandler.update site req at ps
  handle org_add_member ps user = OrgHandler.add_member site req at ps
  handle org_member_role ps user = OrgHandler.update_member_role site req at ps
  handle org_remove_member ps user = OrgHandler.remove_member site req at ps
  handle org_delete ps user = OrgHandler.delete site req at ps
  handle project_list ps user = ProjectHandler.list site req at ps
  handle project_create ps user = ProjectHandler.create site req at ps user
  handle project_get ps user = ProjectHandler.get site req at ps
  handle project_update ps user = ProjectHandler.update site req at ps
  handle project_delete ps user = ProjectHandler.delete site req at ps
  handle project_rotate ps user = ProjectHandler.rotate_api_key site req at ps
  handle queue_list ps user = QueueHandler.list site req at ps
  handle queue_create ps user = QueueHandler.create site req at ps
  handle queue_get ps user = QueueHandler.get site req at ps
  handle queue_stats_get ps user = QueueHandler.get_stats site req at ps
  handle queue_update ps user = QueueHandler.update site req at ps
  handle queue_pause ps user = QueueHandler.pause site req at ps
  handle queue_resume ps user = QueueHandler.resume site req at ps
  handle queue_delete ps user = QueueHandler.delete site req at ps
  handle job_list ps user = JobHandler.list site req at ps
  handle job_enqueue ps user = JobHandler.enqueue site req at ps
  handle job_get ps user = JobHandler.get site req at ps
  handle job_cancel ps user = JobHandler.cancel site req at ps
  handle job_retry ps user = JobHandler.retry site req at ps
  handle batch_create ps user = BatchHandler.create_batch site req at ps
  handle batch_get ps user = BatchHandler.get_batch site req at ps
  handle cron_create ps user = CronHandler.create site req at ps
  handle cron_list ps user = CronHandler.list site req at ps
  handle cron_delete ps user = CronHandler.delete site req at ps

  -- The identity that AuthRequired sets.
  abbrev pub sender : Result (ℕ × String)
  sender =
      auth_required site.auth (λ s. uuid_or (app invalid_input "uuid") (site.parse_uuid s))
        req.authorization at.now

  -- One middleware: the user of the request from then on, or the error that RespondError sends.
  unfoldable pub run_guard : Guard → Params → ℕ → Exec Db ℕ
  run_guard signed_in ps user = lift (role_of (λ (i : ℕ × String). i.0) sender)
  run_guard (org_role least) ps user = do
    i ← lift (uuid_param site.parse_uuid ps "orgId")
    m ← attempt (OrgRepo.get_member i user)
    lift (
        role_of (λ r. user)
          (require_org_role (λ o u. role_of (λ (v : Org.Member). v.role) m) least (ok i) user))
  run_guard (project_role least) ps user = do
    i ← lift (uuid_param site.parse_uuid ps "projectId")
    m ← attempt (ProjectRepo.get_member i user)
    lift (
        role_of (λ r. user)
          (require_project_role (λ o u. role_of (λ (v : Project.Member). v.role) m) least (ok i)
            user))

  -- `return RespondError(c, err)`, or `return c.Next()`.
  abbrev pub or_next : (ℕ → Exec Db Response) → Result ℕ → Exec Db Response
  or_next next (err e) = pure (error_response e)
  or_next next (ok user) = next user

  unfoldable pub pass_guards : List Guard → Params → (ℕ → Exec Db Response) → ℕ → Exec Db Response
  pass_guards [] ps next user = next user
  pass_guards (g ∷ gs) ps next user = do
    passed ← attempt (run_guard g ps user)
    or_next (pass_guards gs ps next) passed

  module _ (router : Router) where
    abbrev pub through :
        List Guard
        → (ℕ → Exec Db Response)
        → (Params → ℕ → Exec Db Response)
        → Option Params
        → ℕ
        → Exec Db Response
    through gs skip next none user = skip user
    through gs skip next (some ps) user = pass_guards gs ps (next ps) user

    -- The registrations that fit run in their order; a handler of a route does not call c.Next().
    unfoldable pub run : List Registration → ℕ → Exec Db Response
    run [] user = pure router.unrouted
    run (group p gs ∷ rs) user =
        let rest = run rs in through gs rest (λ ps. rest) (router.matched true p req.path) user
    run (route m p gs e ∷ rs) user =
        let rest = run rs in
        through gs rest (handle e)
          (for_method (str_eq m req.method) (router.matched false p req.path)) user

    unfoldable pub serve : World Db → Response × World Db
    unfolding run
    serve w = finish (run routes 0) w
