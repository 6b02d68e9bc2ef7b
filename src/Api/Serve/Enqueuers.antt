-- ===== src/Api/Serve/Enqueuers.antt =====
-- Who reaches the jobs of a queue through the API.
use codity_assignment.Base.{String, List, ◌≡◌, ◌∷◌, ℕ, some, true, Bool, ◌≤◌, ◌⊎◌, inl, inr, subst}
use codity_assignment.Api.Site.{Site, Moment}
use codity_assignment.Api.{Request, param, Response}
use codity_assignment.Api.Serve.{Router, sender, serve}
use codity_assignment.Api.Serve.Admission.{Arrives}
use codity_assignment.Api.Routes.{routes, Segment}
use codity_assignment.Store.{Db}
use codity_assignment.Exec.{Result, World, ok}
use codity_assignment.Api.Serve.Paths.{
  fits, serve-Arrives, begins, IsNamed, serve_named, named_router, with_path,
}
use codity_assignment.Api.Serve.Guards.{has_project_role}
use codity_assignment.Access.Bearer.{equal_fold}
use codity_assignment.Domain.Project

-- On a path below the jobs of a queue, the groups of the queues come first, with the guard of an
-- administrator.
jobs_admin :
    (site : Site) (req : Request) (at : Moment) (p q : String) (rest : List String)
    (unrouted : Response) (d : Db) (x : Result Response × World Db)
    → let asked = record req { path = "projects" ∷ p ∷ "queues" ∷ q ∷ "jobs" ∷ rest } in
      Arrives site asked at (named_router unrouted) routes 0 d x
      → (user : ℕ) × ((email : String) × (sender site req at ≡ ok (user, email)))
        × ((project_id : ℕ) × (site.parse_uuid p ≡ some project_id)
            × (has_project_role Project.admin d project_id user ≡ true))
unfolding Arrives routes param begins equal_fold
jobs_admin site req at p q rest unrouted d x arrives =
    let (v, (t, (email, signed), e), viewer) = arrives in
    let (v1, (t1, (s1, given1), e1), developer) = viewer in
    let (v2, (t2, (s2, given2), e2), admin) = developer in
    let (v3, (t3, (s3, given), e3), more) = admin in (v2, (email, cc), given)

-- Whatever a request does to the jobs of a queue through the API, its sender is signed in and an
-- administrator of the project that the path names: any other request whose path goes on from
-- /projects/p/queues/q/jobs, and has no empty part, is answered with an error and changes nothing,
-- where paths fit as documented and a request without a route is answered with an error.
pub serve_jobs-has_project_role :
    (site : Site) (req : Request) (at : Moment) (router : Router) (w : World Db) (p q : String)
    (rest : List String)
    → ((prefix : Bool) (pattern : List Segment) (path : List String)
        → router.matched prefix pattern path ≡ fits prefix pattern path)
    → IsNamed req.path
    → 400 ≤ router.unrouted.status
    → req.path ≡ "projects" ∷ p ∷ "queues" ∷ q ∷ "jobs" ∷ rest
    → ((400 ≤ (serve site req at router w).0.status) × ((serve site req at router w).1.db ≡ w.db))
      ⊎ ((user project_id : ℕ) × ((email : String) × (sender site req at ≡ ok (user, email)))
          × (site.parse_uuid p ≡ some project_id)
          × (has_project_role Project.admin w.db project_id user ≡ true))
serve_jobs-has_project_role site req at router w p q rest documented named away path =
    rw (serve_named site req at router w documented named)
      (elim (serve-Arrives site req at (named_router router.unrouted) w away) [
        | inl refused ↦ inl refused
        | inr (x, answer, arrives) ↦
            let (user, signed, (project_id, given, role)) =
              jobs_admin site req at p q rest router.unrouted w.db x (
                subst (λ r. Arrives site r at (named_router router.unrouted) routes 0 w.db x)
                  (with_path req _ path) arrives) in
            inr (user, project_id, signed, given, role)
      ])
