-- ===== src/QueueService.antt =====
-- backend/internal/service/queue/service.go. `i` is the value of `uuid.New()`, `now` the clock.
use codity_assignment.Base.{
  String, if◌then◌else◌, ℤ, ℕ, str_eq, Option, Bool, eq_ℤ, pos, false, List, not, true,
}
use codity_assignment.Text.{trim_space}
use codity_assignment.Exec.{Exec, ◌>>=◌, ◌>>◌, pure, raise}
use codity_assignment.Domain.Queue.{Queue, Stats}
use codity_assignment.Domain.Job.{JsonMap}
use codity_assignment.Store.{Db}
use codity_assignment.Errors.{app, conflict}
pub mod Pausing
use codity_assignment.QueueRepo

pub record CreateRequest : Type 0 where
  pub name : String
  pub description : String
  pub priority : ℤ
  pub concurrency : ℤ
  pub max_retries : ℤ
  pub retry_strategy : String
  pub retry_delay_sec : ℤ
  pub visibility_timeout_sec : ℤ
  pub job_timeout_sec : ℤ
  pub dlq_queue_id : Option ℕ
  pub metadata : JsonMap

pub record UpdateRequest : Type 0 where
  pub description : String
  pub priority : ℤ
  pub concurrency : ℤ
  pub max_retries : ℤ
  pub retry_strategy : String
  pub retry_delay_sec : ℤ
  pub visibility_timeout_sec : ℤ
  pub job_timeout_sec : ℤ
  pub dlq_queue_id : Option ℕ
  pub metadata : JsonMap

-- `if *field == 0 { *field = d }`.
abbrev pub or_else : ℤ → ℕ → ℤ
or_else z d = if eq_ℤ z (pos 0) then pos d else z

unfoldable pub set_defaults : CreateRequest → CreateRequest
set_defaults r = record r {
  priority = or_else r.priority 5;
  concurrency = or_else r.concurrency 10;
  max_retries = or_else r.max_retries 3;
  retry_strategy = if str_eq r.retry_strategy "" then "exponential" else r.retry_strategy;
  retry_delay_sec = or_else r.retry_delay_sec 60;
  visibility_timeout_sec = or_else r.visibility_timeout_sec 300;
  job_timeout_sec = or_else r.job_timeout_sec 300;
}

-- The queue of a request whose defaults are set.
unfoldable pub queue_of : ℕ → ℕ → CreateRequest → ℕ → Queue
unfolding trim_space
queue_of i project_id r now = record {
  id = i;
  project_id = project_id;
  name = trim_space r.name;
  description = trim_space r.description;
  priority = r.priority;
  concurrency = r.concurrency;
  max_retries = r.max_retries;
  retry_strategy = r.retry_strategy;
  retry_delay_sec = r.retry_delay_sec;
  visibility_timeout_sec = r.visibility_timeout_sec;
  job_timeout_sec = r.job_timeout_sec;
  is_paused = false;
  is_dlq = false;
  dlq_queue_id = r.dlq_queue_id;
  metadata = r.metadata;
  created_at = now;
  updated_at = now;
}

-- `toQueueResponse` copies each field: the response of a queue is the queue.
unfoldable pub create : ℕ → ℕ → CreateRequest → ℕ → Exec Db Queue
unfolding set_defaults queue_of
create i project_id req now = do
  let q = queue_of i project_id (set_defaults req) now
  QueueRepo.create q
  pure q

unfoldable pub get_by_id : ℕ → Exec Db Queue
get_by_id i = QueueRepo.get_by_id i

unfoldable pub list_by_project : (String → String → Bool) → ℕ → Exec Db (List Queue)
list_by_project before p = QueueRepo.list_by_project_id before p

abbrev pub with_changes : UpdateRequest → ℕ → Queue → Queue
with_changes r now q = record q {
  description = trim_space r.description;
  priority = r.priority;
  concurrency = r.concurrency;
  max_retries = r.max_retries;
  retry_strategy = r.retry_strategy;
  retry_delay_sec = r.retry_delay_sec;
  visibility_timeout_sec = r.visibility_timeout_sec;
  job_timeout_sec = r.job_timeout_sec;
  dlq_queue_id = r.dlq_queue_id;
  metadata = r.metadata;
  updated_at = now;
}

unfoldable pub update : ℕ → UpdateRequest → ℕ → Exec Db Queue
update i req now = do
  q ← QueueRepo.get_by_id i
  QueueRepo.update (with_changes req now q)
  pure (with_changes req now q)

unfoldable pub delete : ℕ → Exec Db (Unit {0})
delete i = QueueRepo.delete i

unfoldable pub pause : ℕ → ℕ → Exec Db (Unit {0})
pause i now = do
  q ← QueueRepo.get_by_id i
  if q.is_paused
      then raise (app conflict "queue is already paused")
      else QueueRepo.set_paused i true now

unfoldable pub resume : ℕ → ℕ → Exec Db (Unit {0})
resume i now = do
  q ← QueueRepo.get_by_id i
  if not q.is_paused
      then raise (app conflict "queue is not paused")
      else QueueRepo.set_paused i false now

unfoldable pub get_stats : ℕ → Exec Db Stats
get_stats i = QueueRepo.get_stats i
