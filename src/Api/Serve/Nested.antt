-- ===== src/Api/Serve/Nested.antt =====
-- The routes of backend/internal/handler/batch/batch.go and handler/cron/cron.go that stand beside the
-- queues: their path has no queueId, which their handlers read.
use codity_assignment.Base.{
  refl, String, ◌∷◌, [], ◌≡◌, none, List, ◌≤◌, ◌∙◌, Bool, ap, arith, ◌⊎◌, subst, inl, inr, sym,
}
use codity_assignment.Store.{Db}
use codity_assignment.Api.{Response, Request, param, error_handler, answered}
use codity_assignment.Api.Site.{Site, Moment}
use codity_assignment.Api.Serve.{Router, handle, serve}
use codity_assignment.Exec.{Result, World, err}
use codity_assignment.Api.Serve.Admission.{Arrives}
use codity_assignment.Api.Serve.Paths.{
  fits, serve-Arrives, with_method, IsNamed, begins, named_router, serve_named,
}
use codity_assignment.Api.Routes.{routes, Segment}
use codity_assignment.Errors.{GoError, app, invalid_input}
use codity_assignment.Access.Bearer.{equal_fold}
use codity_assignment.Api.BatchHandler
use codity_assignment.Api.CronHandler

abbrev beside_queues : Request → String → String → Request
beside_queues req p leaf = record req {
  method = "POST";
  path = "projects" ∷ p ∷ "queues" ∷ leaf ∷ [];
}

abbrev bad_queue : GoError
bad_queue = app invalid_input "invalid queue ID"

module _ (site : Site) (req : Request) (at : Moment) (p : String) where
  batch_refused :
      (w : World Db)
      → site.parse_uuid "" ≡ none
      → BatchHandler.create_batch site (beside_queues req p "batches") at (("projectId", p) ∷ []) w
        ≡ (err bad_queue, w)
  unfolding BatchHandler.create_batch param
  batch_refused w h = rw h refl

  cron_refused :
      (w : World Db)
      → site.parse_uuid "" ≡ none
      → CronHandler.create site (beside_queues req p "cron") at (("projectId", p) ∷ []) w
        ≡ (err bad_queue, w)
  unfolding CronHandler.create param
  cron_refused w h = rw h refl

  batch_returns :
      (unrouted : Response) (d : Db) (x : Result Response × World Db)
      → site.parse_uuid "" ≡ none
      → Arrives site (beside_queues req p "batches") at (named_router unrouted) routes 0 d x
      → (x.0 ≡ err bad_queue) × (x.1.db ≡ d)
  unfolding Arrives routes handle begins equal_fold
  batch_returns unrouted d x h arrives =
      let (v, signed, viewer) = arrives in
      let (v1, g1, developer) = viewer in
      let (v2, g2, admin) = developer in
      let (v3, g3, final) = admin in
      let (v4, same, (later, kept, answer)) = final in
      let there = answer ∙ batch_refused later h in
      (
        ap (λ (y : Result Response × World Db). y.0) there,
        ap (λ (y : Result Response × World Db). y.1.db) there ∙ kept,
      )

  cron_returns :
      (unrouted : Response) (d : Db) (x : Result Response × World Db)
      → site.parse_uuid "" ≡ none
      → Arrives site (beside_queues req p "cron") at (named_router unrouted) routes 0 d x
      → (x.0 ≡ err bad_queue) × (x.1.db ≡ d)
  unfolding Arrives routes handle begins equal_fold
  cron_returns unrouted d x h arrives =
      let (v, signed, viewer) = arrives in
      let (v1, g1, developer) = viewer in
      let (v2, g2, admin) = developer in
      let (v3, g3, final) = admin in
      let (v4, same, (later, kept, answer)) = final in
      let there = answer ∙ cron_refused later h in
      (
        ap (λ (y : Result Response × World Db). y.0) there,
        ap (λ (y : Result Response × World Db). y.1.db) there ∙ kept,
      )

abbrev Unanswered : Db → Response × World Db → Type 0
Unanswered d y = (400 ≤ y.0.status) × (y.1.db ≡ d)

refused_at :
    (d : Db) (x : Result Response × World Db)
    → x.0 ≡ err bad_queue
    → x.1.db ≡ d
    → Unanswered d (answered x.0, x.1)
unfolding error_handler
refused_at d x h k = (rw h (omega arith), k)

returned_only :
    (site : Site) (req : Request) (at : Moment) (router : Router) (w : World Db)
    → 400 ≤ router.unrouted.status
    → ((x : Result Response × World Db)
        → Arrives site req at router routes 0 w.db x
        → (x.0 ≡ err bad_queue) × (x.1.db ≡ w.db))
    → Unanswered w.db (serve site req at router w)
returned_only site req at router w away returns = elim (serve-Arrives site req at router w away) [
  | inl refused ↦ refused
  | inr (x, answer, arrives) ↦
      let (r, d) = returns x arrives in subst (Unanswered w.db) (sym answer) (refused_at w.db x r d)
]

at_leaf :
    (site : Site) (req : Request) (at : Moment) (unrouted : Response) (w : World Db)
    (p leaf : String)
    → 400 ≤ unrouted.status
    → site.parse_uuid "" ≡ none
    → (leaf ≡ "batches") ⊎ (leaf ≡ "cron")
    → Unanswered w.db (serve site (beside_queues req p leaf) at (named_router unrouted) w)
at_leaf site req at unrouted w p leaf away h (inl e) =
    subst (λ l. Unanswered w.db (serve site (beside_queues req p l) at (named_router unrouted) w))
      (sym e)
      (returned_only site (beside_queues req p "batches") at (named_router unrouted) w away
        (λ x. batch_returns site req at p unrouted w.db x h))
at_leaf site req at unrouted w p leaf away h (inr e) =
    subst (λ l. Unanswered w.db (serve site (beside_queues req p l) at (named_router unrouted) w))
      (sym e)
      (returned_only site (beside_queues req p "cron") at (named_router unrouted) w away
        (λ x. cron_returns site req at p unrouted w.db x h))

-- Whoever sends a POST to /projects/p/queues/batches or /projects/p/queues/cron, for any p that is
-- not empty, the answer is an error and nothing changes, where paths fit as documented, the empty text
-- is no UUID, and a request without a route is answered with an error.
pub serve-beside_queues :
    (site : Site) (req : Request) (at : Moment) (router : Router) (w : World Db) (p leaf : String)
    → ((prefix : Bool) (pattern : List Segment) (path : List String)
        → router.matched prefix pattern path ≡ fits prefix pattern path)
    → IsNamed req.path
    → 400 ≤ router.unrouted.status
    → site.parse_uuid "" ≡ none
    → (leaf ≡ "batches") ⊎ (leaf ≡ "cron")
    → req.method ≡ "POST"
    → req.path ≡ "projects" ∷ p ∷ "queues" ∷ leaf ∷ []
    → (400 ≤ (serve site req at router w).0.status) × ((serve site req at router w).1.db ≡ w.db)
serve-beside_queues site req at router w p leaf documented named away no_uuid leaves post path =
    subst (Unanswered w.db) (sym (serve_named site req at router w documented named)) (
      subst (λ r. Unanswered w.db (serve site r at (named_router router.unrouted) w))
        (sym (with_method req "POST" ("projects" ∷ p ∷ "queues" ∷ leaf ∷ []) post path))
        (at_leaf site req at router.unrouted w p leaf away no_uuid leaves))
