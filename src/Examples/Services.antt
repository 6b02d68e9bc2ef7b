-- ===== src/Examples/Services.antt =====
-- The theorems on the services and the repositories at the tables of the examples.
use codity_assignment.Errors.{
  wrapf, app, not_found, respond_error, is_not_found, is_conflict, is_unauthorized, conflict,
  GoError,
}
use codity_assignment.JobService.{EnqueueRequest, to_job_response}
use codity_assignment.Examples.{tables, request, world}
use codity_assignment.Base.{
  [], String, Bool, true, some, ◌≡◌, count_rows, pos, ◌↔◌, any_row, first_row, update_rows, ◌≤◌,
  ◌⊎◌, refl, none,
}
use codity_assignment.Domain.Job.{Job, zero_job, Status}
use codity_assignment.Exec.{query, sql, map_err, ◌>>=◌, ◌>>◌, err, ok}
use codity_assignment.JobService.Enqueue.{Submitted, enqueue-err, Reused, enqueue-ok}
use codity_assignment.Errors.Status.{respond_error_status}
use codity_assignment.JobService.Enqueue.Untagged.{enqueue_untagged}
use codity_assignment.QueueRepo
use codity_assignment.QueueService
use codity_assignment.JobService
use codity_assignment.JobRepo
use codity_assignment.JobRepo.Updates

abbrev pub fresh_job : Job
fresh_job = record zero_job {
  id = 20;
  queue_id = 1;
  job_type = "email";
  status = Status.scheduled;
  priority = pos 5;
  run_at = 900;
  max_retries = pos 3;
  retry_strategy = "exponential";
  retry_delay_sec = pos 60;
  timeout_sec = pos 300;
  tags = some [];
  created_at = 500;
  updated_at = 500;
}

abbrev with_key : EnqueueRequest
with_key = record request { idempotency_key = some "k1" }

enqueue-ok_example :
    Submitted 20 1 request 500 tables
      (JobService.enqueue 20 1 request 500 world).1.db
      (to_job_response fresh_job)
    ⊎ Reused 20 1 request 500 tables
        (JobService.enqueue 20 1 request 500 world).1.db
        (to_job_response fresh_job)
unfolding JobService.enqueue JobService.submit JobService.resolve JobService.new_job
    JobRepo.get_by_idempotency_key JobRepo.get_by_id JobRepo.create JobRepo.insert_job
    JobRepo.columns_ok JobRepo.is_strategy JobRepo.key_taken JobRepo.references_ok
    QueueRepo.get_by_id QueueRepo.set_paused QueueService.pause JobService.retry JobService.cancel
    Updates.schedule_retry Updates.cancel query sql map_err ◌>>=◌ ◌>>◌ any_row first_row count_rows
    update_rows is_not_found
enqueue-ok_example = enqueue-ok 20 1 request 500 world (to_job_response fresh_job) refl

-- The request of the documentation.
abbrev without_tags : EnqueueRequest
without_tags = record request { tags = none }

enqueue_untagged_example :
    let done = JobService.enqueue 20 1 without_tags 500 world in
    ((e : GoError) × ((done.0 ≡ err e) × (done.1.db ≡ tables)))
    ⊎ ((r : JobService.JobResponse) × ((done.0 ≡ ok r)
          × Reused 20 1 without_tags 500 tables done.1.db r))
enqueue_untagged_example = enqueue_untagged 20 1 without_tags 500 world refl

enqueue-err_example : (JobService.enqueue 20 2 request 500 world).1.db ≡ tables
unfolding JobService.enqueue JobService.submit JobService.resolve JobService.new_job
    JobRepo.get_by_idempotency_key JobRepo.get_by_id JobRepo.create JobRepo.insert_job
    JobRepo.columns_ok JobRepo.is_strategy JobRepo.key_taken JobRepo.references_ok
    QueueRepo.get_by_id QueueRepo.set_paused QueueService.pause JobService.retry JobService.cancel
    Updates.schedule_retry Updates.cancel query sql map_err ◌>>=◌ ◌>>◌ any_row first_row count_rows
    update_rows is_not_found
enqueue-err_example =
    enqueue-err 20 2 request 500 world (app conflict "queue is paused — jobs cannot be enqueued")
      refl

abbrev any_order : String → String → Bool
any_order a b = true

respond_error_status_example :
    let e = wrapf "create job" (app not_found "queue not found") in
    (((respond_error e).0 ≡ 404) ↔ (is_not_found e ≡ true))
    × (((respond_error e).0 ≡ 409) ↔ (is_conflict e ≡ true))
    × (((respond_error e).0 ≡ 401) ↔ (is_unauthorized e ≡ true))
    × (400 ≤ (respond_error e).0)
respond_error_status_example =
    respond_error_status (wrapf "create job" (app not_found "queue not found"))
