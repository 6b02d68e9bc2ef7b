-- ===== src/Api/Routes.antt =====
-- The routes of backend/cmd/api/main.go, part 9, in the order of their registration: the groups with
-- their middleware, and the RegisterRoutes of backend/internal/handler/{auth,org,project,queue,job,
-- batch,cron}/handler.go (batch.go, cron.go). The routes of the metrics, the execution logs and the
-- socket are left out; they stand on prefixes of their own. A path is the list of its parts after
-- /api/v1.
use codity_assignment.Base.{String, List, ◌++◌, ◌∷◌, []}
use codity_assignment.Domain.Org
use codity_assignment.Domain.Project

pub data Segment : Type 0 where
  fixed : String → Segment
  variable : String → Segment

-- AuthRequired, RequireOrgRole and RequireProjectRole.
pub data Guard : Type 0 where
  signed_in : Guard
  org_role : Org.Role → Guard
  project_role : Project.Role → Guard

pub data Endpoint : Type 0 where
  auth_register auth_login auth_refresh auth_logout : Endpoint
  org_create org_list org_get org_members_list org_update org_add_member : Endpoint
  org_member_role org_remove_member org_delete : Endpoint
  project_list project_create project_get project_update project_delete : Endpoint
  project_rotate : Endpoint
  queue_list queue_create queue_get queue_stats_get queue_update queue_pause : Endpoint
  queue_resume queue_delete : Endpoint
  job_list job_enqueue job_get job_cancel job_retry : Endpoint
  batch_create batch_get cron_create cron_list cron_delete : Endpoint

-- Middleware on a prefix, or the handlers of one method on one path.
pub data Registration : Type 0 where
  group : List Segment → List Guard → Registration
  route : String → List Segment → List Guard → Endpoint → Registration

abbrev orgs_path : List Segment
orgs_path = fixed "orgs" ∷ []

abbrev org_path : List Segment
org_path = fixed "orgs" ∷ variable "orgId" ∷ []

abbrev projects_path : List Segment
projects_path = fixed "orgs" ∷ variable "orgId" ∷ fixed "projects" ∷ []

abbrev project_path : List Segment
project_path = fixed "orgs" ∷ variable "orgId" ∷ fixed "projects" ∷ variable "projectId" ∷ []

abbrev queues_path : List Segment
queues_path = fixed "projects" ∷ variable "projectId" ∷ fixed "queues" ∷ []

abbrev pub queue_path : List Segment
queue_path = fixed "projects" ∷ variable "projectId" ∷ fixed "queues" ∷ variable "queueId" ∷ []

abbrev pub under : List Segment → String → List Segment
under p name = p ++ fixed name ∷ []

abbrev jobs_path : List Segment
jobs_path = under queue_path "jobs"

abbrev job_path : List Segment
job_path = jobs_path ++ variable "jobId" ∷ []

unfoldable pub auth_routes : List Registration
auth_routes =
    route "POST" (fixed "auth" ∷ fixed "register" ∷ []) [] auth_register
    ∷ route "POST" (fixed "auth" ∷ fixed "login" ∷ []) [] auth_login
    ∷ route "POST" (fixed "auth" ∷ fixed "refresh" ∷ []) [] auth_refresh
    ∷ route "DELETE" (fixed "auth" ∷ fixed "logout" ∷ []) [] auth_logout
    ∷ []

abbrev member_path : List Segment
member_path = fixed "orgs" ∷ variable "orgId" ∷ fixed "members" ∷ variable "userId" ∷ []

unfoldable pub org_routes : List Registration
org_routes =
    group orgs_path (signed_in ∷ [])
    ∷ route "POST" orgs_path [] org_create
    ∷ route "GET" orgs_path [] org_list
    ∷ route "GET" org_path (org_role Org.member ∷ []) org_get
    ∷ route "GET" (under org_path "members") (org_role Org.member ∷ []) org_members_list
    ∷ route "PUT" org_path (org_role Org.admin ∷ []) org_update
    ∷ route "POST" (under org_path "members") (org_role Org.admin ∷ []) org_add_member
    ∷ route "PUT" (under member_path "role") (org_role Org.admin ∷ []) org_member_role
    ∷ route "DELETE" member_path (org_role Org.admin ∷ []) org_remove_member
    ∷ route "DELETE" org_path (org_role Org.owner ∷ []) org_delete
    ∷ []

unfoldable pub project_routes : List Registration
project_routes =
    group projects_path (signed_in ∷ [])
    ∷ route "GET" projects_path (org_role Org.member ∷ []) project_list
    ∷ route "POST" projects_path (org_role Org.admin ∷ []) project_create
    ∷ group project_path (project_role Project.viewer ∷ [])
    ∷ route "GET" project_path [] project_get
    ∷ group project_path (project_role Project.developer ∷ [])
    ∷ route "PUT" project_path [] project_update
    ∷ group project_path (project_role Project.admin ∷ [])
    ∷ route "DELETE" project_path [] project_delete
    ∷ route "POST" (under project_path "rotate-key") [] project_rotate
    ∷ []

unfoldable pub queue_routes : List Registration
queue_routes =
    group queues_path (signed_in ∷ [])
    ∷ route "GET" queues_path (project_role Project.viewer ∷ []) queue_list
    ∷ route "POST" queues_path (project_role Project.admin ∷ []) queue_create
    ∷ group queue_path (project_role Project.viewer ∷ [])
    ∷ route "GET" queue_path [] queue_get
    ∷ route "GET" (under queue_path "stats") [] queue_stats_get
    ∷ group queue_path (project_role Project.developer ∷ [])
    ∷ route "PUT" queue_path [] queue_update
    ∷ route "POST" (under queue_path "pause") [] queue_pause
    ∷ route "POST" (under queue_path "resume") [] queue_resume
    ∷ group queue_path (project_role Project.admin ∷ [])
    ∷ route "DELETE" queue_path [] queue_delete
    ∷ []

unfoldable pub job_routes : List Registration
job_routes =
    group jobs_path (signed_in ∷ [])
    ∷ route "GET" jobs_path (project_role Project.viewer ∷ []) job_list
    ∷ route "POST" jobs_path (project_role Project.developer ∷ []) job_enqueue
    ∷ group job_path (project_role Project.viewer ∷ [])
    ∷ route "GET" job_path [] job_get
    ∷ group job_path (project_role Project.developer ∷ [])
    ∷ route "POST" (under job_path "cancel") [] job_cancel
    ∷ route "POST" (under job_path "retry") [] job_retry
    ∷ []

abbrev batch_path : List Segment
batch_path = fixed "batches" ∷ variable "batchId" ∷ []

unfoldable pub batch_routes : List Registration
batch_routes =
    group (fixed "batches" ∷ []) (signed_in ∷ [])
    ∷ route "POST" (under queues_path "batches") [] batch_create
    ∷ route "GET" batch_path [] batch_get
    ∷ []

unfoldable pub cron_routes : List Registration
cron_routes =
    group (fixed "cron" ∷ []) (signed_in ∷ [])
    ∷ route "POST" (under queues_path "cron") [] cron_create
    ∷ route "GET" (under queues_path "cron") [] cron_list
    ∷ route "DELETE" (fixed "cron" ∷ variable "cronId" ∷ []) [] cron_delete
    ∷ []

unfoldable pub routes : List Registration
unfolding auth_routes org_routes project_routes queue_routes job_routes batch_routes cron_routes
routes =
    auth_routes
    ++ (org_routes
        ++ (project_routes ++ (queue_routes ++ (job_routes ++ (batch_routes ++ cron_routes)))))
