-- ===== src/Api/CronHandler.antt =====
-- backend/internal/handler/cron/cron.go. The errors are returned, not sent by RespondError.
pub mod Missing
use codity_assignment.Base.{ℕ, true, none, String}
use codity_assignment.Api.Site.{Site, CreateCronRequest, Moment}
use codity_assignment.Api.{
  Request, parse_and_validate, Params, Response, uuid_or, or_return, param, reply_raw, done,
  success, created, cron_job, cron_jobs,
}
use codity_assignment.Domain.Cron.{CronJob}
use codity_assignment.Errors.{GoError, app, invalid_input}
use codity_assignment.Exec.{Exec, Result}
use codity_assignment.Store.{Db}
use codity_assignment.CronService

unfoldable pub cron_of : ℕ → CreateCronRequest → CronJob
cron_of queue_id b = record {
  id = 0;
  queue_id = queue_id;
  name = b.name;
  description = "";
  cron_expr = b.cron_expr;
  timezone = "UTC";
  job_type = b.job_type;
  payload = b.payload;
  max_retries = b.max_retries;
  retry_strategy = b.retry_strategy;
  is_active = true;
  last_fired_at = none;
  next_fire_at = none;
  created_at = 0;
  updated_at = 0;
}

module _ (site : Site) (req : Request) (at : Moment) where
  abbrev id_in : GoError → Params → String → Result ℕ
  id_in e ps name = uuid_or e (site.parse_uuid (param name ps))

  -- The service fills the pointer's id and times, which the response shows.
  abbrev stamped : CronJob → CronJob
  stamped c = record c { id = at.id; created_at = at.now; updated_at = at.now }

  unfoldable pub create : Params → Exec Db Response
  unfolding parse_and_validate cron_of
  create ps = or_return (id_in (app invalid_input "invalid queue ID") ps "queueId") (λ i.
      or_return (parse_and_validate site.cron_body req) (λ b.
        reply_raw (λ u. created (cron_job (stamped (cron_of i b))))
          (CronService.create at.id (cron_of i b) at.now)))

  unfoldable pub list : Params → Exec Db Response
  list ps = or_return (id_in (app invalid_input "invalid queue ID") ps "queueId") (λ i.
      reply_raw (λ found. success (cron_jobs found)) (CronService.list_by_queue_id site.before i))

  unfoldable pub delete : Params → Exec Db Response
  delete ps =
      or_return (id_in (app invalid_input "invalid cron ID") ps "cronId")
        (λ i. reply_raw done (CronService.delete i))
