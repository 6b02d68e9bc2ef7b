-- ===== src/Examples.antt =====
-- Concrete tables, requests and runs, at which the theorems are applied.
pub mod Claims
pub mod Services
pub mod Workers
pub mod Delays
pub mod Accounts
pub mod Locks
pub mod Sessions
pub mod Orgs
pub mod Crons
pub mod Lives
pub mod Logs
pub mod Sites
pub mod Requests
pub mod Nodes
pub mod Sockets
use codity_assignment.Domain.Job.{Job, Status, zero_job}
use codity_assignment.JobService.{EnqueueRequest}
use codity_assignment.Exec.{World}
use codity_assignment.Retry.{Source}
use codity_assignment.Worker.Registry.{Registry}
use codity_assignment.Store.{Db, empty_db}
use codity_assignment.Domain.Queue.{Queue}
use codity_assignment.Base.{◌-◌, pos, some, false, [], true, ◌∷◌, none, List}

abbrev pub email_job : Job
email_job = record zero_job {
  id = 10;
  queue_id = 1;
  job_type = "email";
  priority = pos 5;
  run_at = 100;
  max_retries = pos 2;
  retry_strategy = "fixed";
  retry_delay_sec = pos 60;
  idempotency_key = some "k1";
  tags = some [];
}

abbrev pub urgent_job : Job
urgent_job = record email_job { id = 11; priority = pos 9; idempotency_key = none }

abbrev pub running_job : Job
running_job = record email_job { id = 12; status = Status.running; idempotency_key = none }

abbrev pub dead_job : Job
dead_job = record email_job {
  id = 13;
  status = Status.dead;
  attempt_count = 2;
  idempotency_key = none;
}

abbrev pub mail_queue : Queue
mail_queue = record {
  id = 1;
  project_id = 7;
  name = "mail";
  description = "";
  priority = pos 5;
  concurrency = pos 2;
  max_retries = pos 3;
  retry_strategy = "exponential";
  retry_delay_sec = pos 60;
  visibility_timeout_sec = pos 300;
  job_timeout_sec = pos 300;
  is_paused = false;
  is_dlq = false;
  dlq_queue_id = none;
  metadata = [];
  created_at = 0;
  updated_at = 0;
}

abbrev pub slow_queue : Queue
slow_queue = record mail_queue { id = 2; name = "slow"; is_paused = true }

abbrev pub tables : Db
tables = record empty_db {
  jobs = email_job ∷ urgent_job ∷ running_job ∷ dead_job ∷ [];
  queues = mail_queue ∷ slow_queue ∷ [];
}

abbrev pub world : World Db
world = record { db = tables; calls = 0; down = λ n. false }

abbrev pub offline : World Db
offline = record { db = tables; calls = 0; down = λ n. true }

abbrev pub request : EnqueueRequest
request = record {
  job_type = "email";
  payload = [];
  priority = none;
  run_at = some 900;
  max_retries = none;
  retry_strategy = none;
  retry_delay_sec = none;
  timeout_sec = none;
  idempotency_key = none;
  tags = some [];
  metadata = [];
}

abbrev pub failing : Registry
failing = ("email", λ timeout j. some "refused") ∷ []

abbrev pub source : Source
source = record { scale = λ b n. b; draw = λ n. n - 1; coin = true }

abbrev pub alone : {A : Type 0} → A → List A
alone a = a ∷ []
