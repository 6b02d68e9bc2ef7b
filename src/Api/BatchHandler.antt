-- ===== src/Api/BatchHandler.antt =====
-- backend/internal/handler/batch/batch.go and Get of backend/internal/service/batch/batch.go. The
-- errors are returned, not sent by RespondError.
pub mod Specs
use codity_assignment.Base.{if◌then◌else◌, str_eq, String, none, some, ℕ, eq_ℤ, pos, map}
use codity_assignment.Api.Site.{Site, JobSpecBody, Moment}
use codity_assignment.Api.{
  Request, parse_and_validate, Params, Response, or_return, uuid_or, param, reply_raw, success,
  created, batch,
}
use codity_assignment.Domain.Job.{Job, zero_job}
use codity_assignment.Errors.{GoError, app, invalid_input}
use codity_assignment.Exec.{Exec, Result}
use codity_assignment.Store.{Db}
use codity_assignment.JobService.{or_default}
use codity_assignment.BatchService
use codity_assignment.BatchRepo

-- The loop that fills `specs`; the other fields of a spec are the zero values.
unfoldable pub spec_of : JobSpecBody → Job
spec_of b = record zero_job {
  job_type = b.job_type;
  payload = b.payload;
  idempotency_key = if str_eq b.idempotency_key "" then none else some b.idempotency_key;
  priority = if eq_ℤ b.priority (pos 0) then pos 5 else b.priority;
  max_retries = or_default b.max_retries (pos 3);
}

module _ (site : Site) (req : Request) (at : Moment) where
  abbrev id_in : GoError → Params → String → Result ℕ
  id_in e ps name = uuid_or e (site.parse_uuid (param name ps))

  unfoldable pub create_batch : Params → Exec Db Response
  unfolding parse_and_validate
  create_batch ps = or_return (id_in (app invalid_input "invalid queue ID") ps "queueId") (λ i.
      or_return (parse_and_validate site.batch_body req) (λ b.
        reply_raw (λ made. created (batch made))
          (BatchService.create_batch at.ids i b.name (map spec_of b.jobs) at.now)))

  unfoldable pub get_batch : Params → Exec Db Response
  get_batch ps =
      or_return (id_in (app invalid_input "invalid batch ID") ps "batchId")
        (λ i. reply_raw (λ found. success (batch found)) (BatchRepo.get_batch i))
