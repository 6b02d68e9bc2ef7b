-- ===== src/Api/Site.antt =====
-- What all handlers are given: `uuid.Parse`, the readers of the bodies, the order of texts of the
-- database, the environment of the authentication, and the values of one request.
use codity_assignment.Base.{String, ℕ, Option, List, Bool, ℤ}
use codity_assignment.AuthService.Tokens.{Env}
use codity_assignment.Domain.Job.{JsonMap}
use codity_assignment.Exec.{Result}
use codity_assignment.AuthService.{Draws, RegisterRequest, LoginRequest}
use codity_assignment.Api.{Reader}
use codity_assignment.OrgService.{OrgRequest, OrgUpdate}
use codity_assignment.ProjectService.{ProjectRequest, ProjectUpdate}
use codity_assignment.QueueService.{CreateRequest, UpdateRequest}
use codity_assignment.JobService.{EnqueueRequest}
use codity_assignment.Domain.Org

-- service/org/service.go, `AddMemberRequest`.
pub record AddMemberRequest : Type 0 where
  pub user_id : ℕ
  pub role : Org.Role

-- handler/batch/batch.go; a priority that is not given is 0, a key that is not given the empty text.
pub record JobSpecBody : Type 0 where
  pub job_type : String
  pub payload : JsonMap
  pub priority : ℤ
  pub max_retries : Option ℤ
  pub idempotency_key : String

pub record CreateBatchRequest : Type 0 where
  pub name : String
  pub jobs : List JobSpecBody

-- handler/cron/cron.go.
pub record CreateCronRequest : Type 0 where
  pub name : String
  pub cron_expr : String
  pub job_type : String
  pub payload : JsonMap
  pub max_retries : Option ℤ
  pub retry_strategy : Option String

pub record Site : Type 0 where
  pub auth : Env
  pub parse_uuid : String → Option ℕ
  pub before : String → String → Bool
  pub register_body : Reader RegisterRequest
  pub login_body : Reader LoginRequest
  pub refresh_body : Reader String
  pub org_body : Reader OrgRequest
  pub org_update_body : Reader OrgUpdate
  pub member_body : Reader AddMemberRequest
  pub role_body : Reader Org.Role
  pub project_body : Reader ProjectRequest
  pub project_update_body : Reader ProjectUpdate
  pub queue_body : Reader CreateRequest
  pub queue_update_body : Reader UpdateRequest
  pub enqueue_body : Reader EnqueueRequest
  pub batch_body : Reader CreateBatchRequest
  pub cron_body : Reader CreateCronRequest

-- `id` is the value of `uuid.New()` and `ids` those of a batch, `now` the clock, `at` NOW().
pub record Moment : Type 0 where
  pub id : ℕ
  pub ids : ℕ → ℕ
  pub now : ℕ
  pub at : ℕ
  pub random : Result String
  pub draws : Draws
