-- ===== src/Domain/Job.antt =====
-- backend/internal/domain/job/job.go
pub mod Statuses
use codity_assignment.Base.{none, List, Bool, ℕ, Option, String, ◌||◌, ltb_ℤ, [], ◌==◌, pos, ℤ}

pub data Status : Type 0 where
  pending scheduled running succeeded failed dead cancelled : Status

abbrev rank : Status → ℕ
rank pending = 0
rank scheduled = 1
rank running = 2
rank succeeded = 3
rank failed = 4
rank dead = 5
rank cancelled = 6

infix 50 ◌is◌
abbrev pub ◌is◌ : Status → Status → Bool
s is t = rank s == rank t

abbrev pub JsonMap : Type 0
JsonMap = List (String × String)

pub record Job : Type 0 where
  pub id : ℕ
  pub queue_id : ℕ
  pub batch_id : Option ℕ
  pub parent_job_id : Option ℕ
  pub cron_job_id : Option ℕ
  pub job_type : String
  pub payload : JsonMap
  pub idempotency_key : Option String
  pub status : Status
  pub priority : ℤ
  pub run_at : ℕ
  pub max_retries : ℤ
  pub attempt_count : ℕ
  pub retry_strategy : String
  pub retry_delay_sec : ℤ
  pub last_error : Option String
  pub last_error_at : Option ℕ
  pub timeout_sec : ℤ
  pub claimed_by : Option ℕ
  pub claimed_at : Option ℕ
  pub started_at : Option ℕ
  pub completed_at : Option ℕ
  -- `none` is the nil slice.
  pub tags : Option (List String)
  pub metadata : JsonMap
  pub created_at : ℕ
  pub updated_at : ℕ

-- Go's zero value of the struct.
abbrev pub zero_job : Job
zero_job = record {
  id = 0;
  queue_id = 0;
  batch_id = none;
  parent_job_id = none;
  cron_job_id = none;
  job_type = "";
  payload = [];
  idempotency_key = none;
  status = pending;
  priority = pos 0;
  run_at = 0;
  max_retries = pos 0;
  attempt_count = 0;
  retry_strategy = "";
  retry_delay_sec = pos 0;
  last_error = none;
  last_error_at = none;
  timeout_sec = pos 0;
  claimed_by = none;
  claimed_at = none;
  started_at = none;
  completed_at = none;
  tags = none;
  metadata = [];
  created_at = 0;
  updated_at = 0;
}

unfoldable pub is_terminal : Job → Bool
is_terminal j = j.status is succeeded || j.status is dead || j.status is cancelled

unfoldable pub can_retry : Job → Bool
can_retry j = ltb_ℤ (pos j.attempt_count) j.max_retries

pub record ListFilter : Type 0 where
  pub status : Option Status
  pub job_type : Option String
  pub limit : ℤ
  pub offset : ℤ
