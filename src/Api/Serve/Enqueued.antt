-- ===== src/Api/Serve/Enqueued.antt =====
-- A request that enqueues a job, on its whole way: the token, the roles, the body, the service.
use codity_assignment.Base.{
  refl, ℕ, String, Option, where_rows, ◌≡◌, ◌∷◌, some, false, [], suc, ◌∙◌, List, Bool, ap,
}
use codity_assignment.Api.Site.{Site, Moment}
use codity_assignment.Api.{
  Request, Params, uuid_param, Response, param, finish, read_body, reply, created, job, answered,
}
use codity_assignment.Store.{Db}
use codity_assignment.Api.Serve.{run_guard, pass_guards, sender, run, handle, serve, Router}
use codity_assignment.Exec.{◌>>=◌, map_err, query, Exec, World, sql, ok, Result}
use codity_assignment.Api.Routes.{Guard, signed_in, project_role, routes, job_enqueue, Segment}
use codity_assignment.Access.{require_project_role}
use codity_assignment.Api.Serve.Paths.{
  fits, with_method, begins, IsNamed, serve_named, named_router,
}
use codity_assignment.JobService.{EnqueueRequest, JobResponse}
use codity_assignment.Access.Bearer.{equal_fold}
use codity_assignment.ProjectRepo
use codity_assignment.JobService
use codity_assignment.Api.JobHandler
use codity_assignment.Domain.Project

-- The member that the middleware reads.
abbrev pub member_of : Db → ℕ → ℕ → Option Project.Member
member_of d i u =
    ProjectRepo.first_of
      (ProjectRepo.joined d.users (where_rows (ProjectRepo.membership i u) d.project_members))

module _ (site : Site) (req : Request) (at : Moment) where
  pub pass_one :
      (g : Guard) (ps : Params) (next : ℕ → Exec Db Response) (u v : ℕ) (w w' : World Db)
      → run_guard site req at g ps u w ≡ (ok v, w')
      → pass_guards site req at (g ∷ []) ps next u w ≡ next v w'
  unfolding pass_guards ◌>>=◌
  pass_one g ps next u v w w' h = rw h refl

  pub signed_passes :
      (ps : Params) (u v : ℕ) (email : String) (w : World Db)
      → sender site req at ≡ ok (v, email)
      → run_guard site req at signed_in ps u w ≡ (ok v, w)
  unfolding run_guard
  signed_passes ps u v email w h = rw h refl

  admin_passes :
      (least : Project.Role) (ps : Params) (i u : ℕ) (m : Project.Member) (w : World Db)
      → site.parse_uuid (param "projectId" ps) ≡ some i
      → member_of w.db i u ≡ some m
      → m.role ≡ Project.admin
      → w.down w.calls ≡ false
      → run_guard site req at (project_role least) ps u w ≡ (ok u, record w { calls = suc w.calls })
  unfolding run_guard uuid_param ProjectRepo.get_member map_err query sql ◌>>=◌ require_project_role
  admin_passes Project.viewer ps i u m w h k a up = rw h (rw up (rw k (rw a refl)))
  admin_passes Project.developer ps i u m w h k a up = rw h (rw up (rw k (rw a refl)))
  admin_passes Project.admin ps i u m w h k a up = rw h (rw up (rw k (rw a refl)))

  handled :
      (ps : Params) (u i : ℕ) (b : EnqueueRequest) (j : JobResponse) (w : World Db)
      → site.parse_uuid (param "queueId" ps) ≡ some i
      → site.enqueue_body.parse req.text ≡ some b
      → site.enqueue_body.check b ≡ []
      → (JobService.enqueue at.id i b at.now w).0 ≡ ok j
      → finish (handle site req at job_enqueue ps u) w
        ≡ (created (job j), (JobService.enqueue at.id i b at.now w).1)
  unfolding finish handle JobHandler.enqueue read_body reply uuid_param
  handled ps u i b j w given text fields h = rw given (rw text (rw fields (rw h refl)))

abbrev pub enqueue_path : String → String → List String
enqueue_path p q = "projects" ∷ p ∷ "queues" ∷ q ∷ "jobs" ∷ []

module _ (site : Site) (req : Request) (at : Moment) (p q : String) where
  abbrev asked : Request
  asked = record req { method = "POST"; path = enqueue_path p q }

  enqueue_passes :
      (unrouted : Response) (u i : ℕ) (email : String) (m : Project.Member) (w : World Db)
      → ((n : ℕ) → w.down n ≡ false)
      → sender site req at ≡ ok (u, email)
      → site.parse_uuid p ≡ some i
      → member_of w.db i u ≡ some m
      → m.role ≡ Project.admin
      → run site asked at (named_router unrouted) routes 0 w
        ≡ handle site asked at job_enqueue
            (("projectId", p) ∷ ("queueId", q) ∷ [])
            u
            (record w { calls = suc (suc (suc (suc w.calls))) })
  unfolding run routes param begins equal_fold
  enqueue_passes unrouted u i email m w up signed given found admin =
      let step = λ (least : Project.Role) (next : ℕ → Exec Db Response) (n : ℕ).
        pass_one site asked at (project_role least) (("projectId", p) ∷ ("queueId", q) ∷ []) next u
          u (record w { calls = n }) (record w { calls = suc n })
          (admin_passes site asked at least _ i u m (record w { calls = n }) given found admin
            (up n)) in
      pass_one site asked at signed_in _ _ 0 u w w
        (signed_passes site asked at _ 0 u email w signed)
      ∙ step Project.viewer _ w.calls
      ∙ step Project.developer _ (suc w.calls)
      ∙ step Project.admin _ (suc (suc w.calls))
      ∙ pass_one site asked at signed_in _ _ u u _ _
          (signed_passes site asked at _ u u email _ signed)
      ∙ step Project.developer _ (suc (suc (suc w.calls)))

-- An administrator of a project who sends a body that the service accepts, to the jobs of a queue,
-- is answered with 201 and the job, and the tables are those that the service leaves, where the
-- database answers, paths fit as documented, and no part of the path is empty. Nothing asks that the queue be one of the project.
pub serve-enqueue :
    (site : Site) (req : Request) (at : Moment) (router : Router) (w : World Db) (p q : String)
    (u i queue_id : ℕ) (email : String) (m : Project.Member) (b : EnqueueRequest) (j : JobResponse)
    → ((prefix : Bool) (pattern : List Segment) (path : List String)
        → router.matched prefix pattern path ≡ fits prefix pattern path)
    → IsNamed req.path
    → ((n : ℕ) → w.down n ≡ false)
    → req.method ≡ "POST"
    → req.path ≡ enqueue_path p q
    → sender site req at ≡ ok (u, email)
    → site.parse_uuid p ≡ some i
    → member_of w.db i u ≡ some m
    → m.role ≡ Project.admin
    → site.parse_uuid q ≡ some queue_id
    → site.enqueue_body.parse req.text ≡ some b
    → site.enqueue_body.check b ≡ []
    → let after = record w { calls = suc (suc (suc (suc w.calls))) } in
      (JobService.enqueue at.id queue_id b at.now after).0 ≡ ok j
      → serve site req at router w
        ≡ (created (job j), (JobService.enqueue at.id queue_id b at.now after).1)
unfolding serve finish param
serve-enqueue site req at router w p q u i queue_id email m b j documented named up post path signed
      given found admin target text fields h =
    let there =
      enqueue_passes site req at p q router.unrouted u i email m w up signed given found admin in
    let answer =
      ap (λ (y : Result Response × World Db). (answered y.0, y.1)) there
      ∙ handled site (asked site req at p q) at (("projectId", p) ∷ ("queueId", q) ∷ []) u queue_id
          b j (record w { calls = suc (suc (suc (suc w.calls))) }) target text fields h in
    serve_named site req at router w documented named
    ∙ ap (λ r. serve site r at (named_router router.unrouted) w)
        (with_method req "POST" (enqueue_path p q) post path)
    ∙ answer
