-- ===== src/JobService.antt =====
-- backend/internal/service/job/service.go. `i` is the value of `uuid.New()`, `now` the clock of the
-- node and the NOW() of the statements; log lines are left out.
pub mod Enqueue
pub mod Retry
use codity_assignment.Base.{
  Option, List, String, ℕ, Bool, some, ℤ, false, none, ltb, if◌then◌else◌, map, not, str_eq, ◌&&◌,
}
use codity_assignment.Domain.Job.{
  Job, JsonMap, ListFilter, Status, zero_job, scheduled, pending, ◌is◌, failed, dead,
}
use codity_assignment.Exec.{Exec, Result, ◌>>=◌, ok, pure, raise, err, attempt, ◌>>◌}
use codity_assignment.Domain.Queue.{Queue}
use codity_assignment.Store.{Db}
use codity_assignment.Errors.{app, is_not_found, conflict}
use codity_assignment.QueueRepo
use codity_assignment.JobRepo
use codity_assignment.JobRepo.Updates

pub record EnqueueRequest : Type 0 where
  pub job_type : String
  pub payload : JsonMap
  pub priority : Option ℤ
  pub run_at : Option ℕ
  pub max_retries : Option ℤ
  pub retry_strategy : Option String
  pub retry_delay_sec : Option ℤ
  pub timeout_sec : Option ℤ
  pub idempotency_key : Option String
  -- `none` where the body has no tags.
  pub tags : Option (List String)
  pub metadata : JsonMap

-- JobResponse: the fields of the job that a client sees.
pub record JobResponse : Type 0 where
  pub id : ℕ
  pub queue_id : ℕ
  pub batch_id : Option ℕ
  pub job_type : String
  pub payload : JsonMap
  pub status : Status
  pub priority : ℤ
  pub run_at : ℕ
  pub max_retries : ℤ
  pub attempt_count : ℕ
  pub retry_strategy : String
  pub last_error : Option String
  pub timeout_sec : ℤ
  pub idempotency_key : Option String
  pub tags : Option (List String)
  pub claimed_by : Option ℕ
  pub started_at : Option ℕ
  pub completed_at : Option ℕ
  pub created_at : ℕ
  pub updated_at : ℕ

abbrev pub to_job_response : Job → JobResponse
to_job_response j = record {
  id = j.id;
  queue_id = j.queue_id;
  batch_id = j.batch_id;
  job_type = j.job_type;
  payload = j.payload;
  status = j.status;
  priority = j.priority;
  run_at = j.run_at;
  max_retries = j.max_retries;
  attempt_count = j.attempt_count;
  retry_strategy = j.retry_strategy;
  last_error = j.last_error;
  timeout_sec = j.timeout_sec;
  idempotency_key = j.idempotency_key;
  tags = j.tags;
  claimed_by = j.claimed_by;
  started_at = j.started_at;
  completed_at = j.completed_at;
  created_at = j.created_at;
  updated_at = j.updated_at;
}

abbrev pub or_default {ℓ} : {A : Type ℓ} → Option A → A → A
or_default none d = d
or_default (some a) d = a

-- `req.RunAt != nil && req.RunAt.After(now)`.
abbrev pub delayed : Option ℕ → ℕ → Bool
delayed none now = false
delayed (some t) now = ltb now t

-- The job of a request: the defaults of the queue, then the overrides.
unfoldable pub new_job : ℕ → Queue → EnqueueRequest → ℕ → Job
new_job i q req now =
    let late = delayed req.run_at now in
    record zero_job {
      id = i;
      queue_id = q.id;
      job_type = req.job_type;
      payload = req.payload;
      status = if late then scheduled else pending;
      priority = or_default req.priority q.priority;
      run_at = if late then or_default req.run_at now else now;
      max_retries = or_default req.max_retries q.max_retries;
      retry_strategy = or_default req.retry_strategy q.retry_strategy;
      retry_delay_sec = or_default req.retry_delay_sec q.retry_delay_sec;
      timeout_sec = or_default req.timeout_sec q.job_timeout_sec;
      idempotency_key = req.idempotency_key;
      tags = req.tags;
      metadata = req.metadata;
      created_at = now;
      updated_at = now;
    }

unfoldable pub submit : ℕ → ℕ → EnqueueRequest → ℕ → Exec Db JobResponse
unfolding new_job
submit i queue_id req now = do
  q ← QueueRepo.get_by_id queue_id
  if q.is_paused then raise (app conflict "queue is paused — jobs cannot be enqueued") else (do
    let j = record (new_job i q req now) { queue_id = queue_id }
    JobRepo.create j
    pure (to_job_response j))

-- The lookup by the idempotency key: the existing job, a NotFound, or any other error.
unfoldable pub resolve : Exec Db JobResponse → Result Job → Exec Db JobResponse
resolve fresh (ok existing) = pure (to_job_response existing)
resolve fresh (err e) = if is_not_found e then fresh else raise e

unfoldable pub enqueue : ℕ → ℕ → EnqueueRequest → ℕ → Exec Db JobResponse
unfolding submit resolve
enqueue i queue_id req now = elim req.idempotency_key [
  | none ↦ submit i queue_id req now
  | some key ↦ if str_eq key "" then submit i queue_id req now else (do
    found ← attempt (JobRepo.get_by_idempotency_key key)
    resolve (submit i queue_id req now) found)
]

unfoldable pub get_by_id : ℕ → Exec Db JobResponse
get_by_id i = do j ← JobRepo.get_by_id i; pure (to_job_response j)

pub record ListResponse : Type 0 where
  pub jobs : List JobResponse
  pub total : ℕ
  pub limit : ℤ
  pub offset : ℤ

unfoldable pub list_page : ℕ → ListFilter → Exec Db ListResponse
list_page queue_id f = do
  found ← JobRepo.list_jobs queue_id f
  pure (record {
    jobs = map to_job_response found.0;
    total = found.1;
    limit = f.limit;
    offset = f.offset;
  })

unfoldable pub cancel : ℕ → ℕ → Exec Db (Unit {0})
cancel i now = Updates.cancel i now

-- A manual retry keeps the attempts that were counted.
unfoldable pub retry : ℕ → ℕ → ℕ → Exec Db (Unit {0})
retry i at now = do
  j ← JobRepo.get_by_id i
  if not (j.status is failed) && not (j.status is dead)
      then raise (app conflict "only failed or dead jobs can be manually retried")
      else Updates.schedule_retry i at j.attempt_count now
