-- ===== src/Api.antt =====
-- What the handlers of backend/internal/handler share: RespondError and parseUUIDParam of
-- backend/internal/middleware/auth.go (each handler has its own parseUUID and validationError, all
-- the same), ParseAndValidate of backend/pkg/validator/validator.go, and buildErrorHandler of
-- backend/cmd/api/main.go. The texts of a request come as the HTTP framework reads them; `Site`
-- holds the functions of other packages, and `Moment` what a request takes from outside: clocks,
-- `uuid.New()` and random texts.
pub mod Site
pub mod OrgHandler
pub mod ProjectHandler
pub mod QueueHandler
pub mod JobHandler
pub mod AuthHandler
pub mod BatchHandler
pub mod CronHandler
pub mod Reports
pub mod Origins
pub mod Routes
pub mod Serve
use codity_assignment.Errors.{GoError, Code, app, internal, invalid_input, respond_error, as_app}
use codity_assignment.Exec.{Exec, Result, pure, ◌>>=◌, err, World, ok, raise}
use codity_assignment.Base.{
  Option, String, List, ℕ, ◌∷◌, ℤ, some, [], if◌then◌else◌, none, str_eq, str_append,
}
use codity_assignment.OrgService.{OrgResponse, MemberResponse}
use codity_assignment.ProjectService.{ProjectResponse, ApiKey}
use codity_assignment.Domain.Queue.{Queue, Stats}
use codity_assignment.JobService.{JobResponse, ListResponse}
use codity_assignment.AuthService.{UserDto, LoginResponse, RefreshResponse}
use codity_assignment.Domain.Batch.{Batch}
use codity_assignment.Domain.Cron.{CronJob}
use codity_assignment.ExecLog.{JobExecution, ExecutionLog}
use codity_assignment.Metrics.{Snapshot, SystemMetrics}

pub record FieldError : Type 0 where
  pub field : String
  pub tag : String
  pub message : String

-- The value that a response carries.
pub data Payload : Type 0 where
  organization : OrgResponse → Payload
  organizations : List OrgResponse → Payload
  org_member : MemberResponse → Payload
  org_members : List MemberResponse → Payload
  project : ProjectResponse → Payload
  keyed_project : ProjectResponse → ApiKey → Payload
  projects : List ProjectResponse → Payload
  api_key : ApiKey → Payload
  queue : Queue → Payload
  queues : List Queue → Payload
  queue_stats : Stats → Payload
  job : JobResponse → Payload
  jobs : ListResponse → Payload
  account : UserDto → Payload
  session : LoginResponse → Payload
  access : RefreshResponse → Payload
  batch : Batch → Payload
  cron_job : CronJob → Payload
  cron_jobs : List CronJob → Payload
  executions : List JobExecution → Payload
  log_lines : List ExecutionLog → Payload
  snapshots : List Snapshot → Payload
  system : SystemMetrics → Payload
  health : String → Payload

pub data Body : Type 0 where
  payload : Payload → Body
  failure : Code → String → Body
  invalid_fields : List FieldError → Body
  no_content : Body

pub record Response : Type 0 where
  pub status : ℕ
  pub body : Body

abbrev pub created : Payload → Response
created p = record { status = 201; body = payload p }

abbrev pub success : Payload → Response
success p = record { status = 200; body = payload p }

abbrev pub done : Unit {0} → Response
done u = record { status = 204; body = no_content }

abbrev message_in : Option (Code × String) → String
message_in none = "an unexpected error occurred"
message_in (some (c, m)) = m

-- `RespondError`.
unfoldable pub error_response : GoError → Response
unfolding respond_error as_app
error_response e = record {
  status = (respond_error e).0;
  body = failure (respond_error e).1 (message_in (as_app e));
}

-- `buildErrorHandler`: an error that a handler returns is one of the framework, or any other.
pub data Returned : Type 0 where
  fiber_error : ℕ → String → Returned
  plain : GoError → Returned

unfoldable pub error_handler : Returned → Response
error_handler (fiber_error code m) = record { status = code; body = failure internal m }
error_handler (plain e) = record {
  status = 500;
  body = failure internal "an unexpected error occurred";
}

abbrev pub answered : Result Response → Response
answered (ok r) = r
answered (err e) = error_handler (plain e)

pub record Request : Type 0 where
  pub method : String
  pub path : List String
  pub authorization : String
  pub user_agent : String
  pub ip : String
  pub text : String
  pub query_text : String → String
  pub query_int : String → ℤ → ℤ

abbrev pub Params : Type 0
Params = List (String × String)

-- `c.Params(name)`: the empty text where the route has no parameter of that name.
unfoldable pub param : String → Params → String
param name [] = ""
param name ((k, v) ∷ ps) = if str_eq k name then v else param name ps

-- `uuid.Parse` of a parameter, or the error of parseUUID and parseUUIDParam.
abbrev pub uuid_or : GoError → Option ℕ → Result ℕ
uuid_or e none = err e
uuid_or e (some i) = ok i

unfoldable pub uuid_param : (String → Option ℕ) → Params → String → Result ℕ
unfolding param
uuid_param parse_uuid ps name =
    uuid_or (app invalid_input (str_append name " must be a valid UUID"))
      (parse_uuid (param name ps))

-- `BodyParser` for one type of body, and the errors of `Validate`.
pub record Reader (B : Type 0) : Type 0 where
  pub parse : String → Option B
  pub check : B → List FieldError

abbrev pub responded : {A : Type 0} → (A → Response) → Result A → Response
responded f (ok a) = f a
responded f (err e) = error_response e

module _ {S : Type 0} where
  -- The clients get the framework's answer for an error that the handler returns.
  unfoldable pub finish : Exec S Response → World S → Response × World S
  finish h w = let (r, w') = h w in (answered r, w')

  -- `if err != nil { return RespondError(c, err) }; return c.JSON(…)`.
  unfoldable pub reply : {A : Type 0} → (A → Response) → Exec S A → Exec S Response
  unfolding error_response
  reply f m w = let (r, w') = m w in (ok (responded f r), w')

  -- `if err != nil { return err }; return c.JSON(…)`.
  unfoldable pub reply_raw : {A : Type 0} → (A → Response) → Exec S A → Exec S Response
  reply_raw f m = do a ← m; pure (f a)

  abbrev pub or_respond : {A : Type 0} → Result A → (A → Exec S Response) → Exec S Response
  or_respond (err e) k = pure (error_response e)
  or_respond (ok a) k = k a

  abbrev pub or_return : {A : Type 0} → Result A → (A → Exec S Response) → Exec S Response
  or_return (err e) k = raise e
  or_return (ok a) k = k a

  abbrev pub validated : List FieldError → Exec S Response → Exec S Response
  validated [] m = m
  validated (e ∷ es) m = pure (record { status = 400; body = invalid_fields (e ∷ es) })

abbrev pub parsed : {B : Type 0} → String → Option B → Result B
parsed m none = err (app invalid_input m)
parsed m (some b) = ok b

module _ {S B : Type 0} where
  -- BodyParser, then Validate.
  unfoldable pub read_body : Reader B → String → Request → (B → Exec S Response) → Exec S Response
  unfolding error_response
  read_body r m req k = or_respond (parsed m (r.parse req.text)) (λ b. validated (r.check b) (k b))

abbrev fields_checked : {B : Type 0} → B → List FieldError → Result B
fields_checked b [] = ok b
fields_checked b (e ∷ es) = err (app invalid_input "validation failed")

abbrev checked_by : {B : Type 0} → Reader B → Result B → Result B
checked_by r (err e) = err e
checked_by r (ok b) = fields_checked b (r.check b)

unfoldable pub parse_and_validate : {B : Type 0} → Reader B → Request → Result B
parse_and_validate r req = checked_by r (parsed "invalid JSON body" (r.parse req.text))
