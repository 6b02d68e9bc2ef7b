-- ===== src/ExecLog.antt =====
-- backend/internal/repository/postgres/execlog.go, with the structs of domain/execlog/execlog.go and
-- the two listings of service/execlog/execlog.go: the executions of jobs and their log lines, beside
-- the other tables. A DELETE of a job, which takes these rows with it, is not carried over to them.
pub mod Prefix
use codity_assignment.Exec.{Exec, Result, pure, query, sql, ok, ◌>>◌, err}
use codity_assignment.Base.{
  none, ℕ, String, List, Bool, [], if◌then◌else◌, sort_rows, ℤ, ◌∷◌, not, ◌==◌, str_eq, Option, leb,
  any_row, where_rows, ◌||◌, leb_ℤ, ◌&&◌, update_rows, ◌++◌,
}
use codity_assignment.Store.{Db}
use codity_assignment.Domain.Job.{JsonMap}
use codity_assignment.Errors.{pg, refused, unique_violation, foreign_key_violation}
use codity_assignment.JobRepo.{has_id}
use codity_assignment.WorkerRepo.{worker_has_id}

pub record JobExecution : Type 0 where
  pub id : ℕ
  pub job_id : ℕ
  pub worker_id : ℕ
  pub attempt : ℤ
  pub status : String
  pub started_at : ℕ
  pub completed_at : Option ℕ
  pub duration_ms : Option ℤ
  pub error_message : Option String
  pub stack_trace : Option String
  pub result : JsonMap

pub record ExecutionLog : Type 0 where
  pub id : ℕ
  pub execution_id : ℕ
  pub job_id : ℕ
  pub level : String
  pub message : String
  pub metadata : JsonMap
  pub logged_at : ℕ

pub record LogDb : Type 0 where
  pub base : Db
  pub executions : List JobExecution
  pub logs : List ExecutionLog

-- The enum types execution_status and log_level.
unfoldable pub is_execution_status : String → Bool
is_execution_status s =
    str_eq s "started" || str_eq s "succeeded" || str_eq s "failed" || str_eq s "timed_out"

unfoldable pub is_log_level : String → Bool
is_log_level s = str_eq s "debug" || str_eq s "info" || str_eq s "warn" || str_eq s "error"

abbrev pub execution_has_id : ℕ → JobExecution → Bool
execution_has_id i e = e.id == i

-- The INSERT names the columns up to started_at; the others are NULL.
abbrev started_row : JobExecution → JobExecution
started_row e = record e {
  completed_at = none;
  duration_ms = none;
  error_message = none;
  stack_trace = none;
  result = [];
}

unfoldable pub insert_execution : JobExecution → LogDb → Result (Unit {0}) × LogDb
unfolding is_execution_status
insert_execution e d =
    if not (is_execution_status e.status)
    then (err (pg refused), d)
    else if any_row (execution_has_id e.id) d.executions
    then (err (pg unique_violation), d)
    else if not (any_row (has_id e.job_id) d.base.jobs)
        || not (any_row (worker_has_id e.worker_id) d.base.workers)
    then (err (pg foreign_key_violation), d)
    else (ok tt, record d { executions = d.executions ++ started_row e ∷ [] })

unfoldable pub create_execution : JobExecution → Exec LogDb (Unit {0})
unfolding insert_execution
create_execution e = sql (insert_execution e)

-- The columns that UPDATE sets.
abbrev execution_written : JobExecution → JobExecution → JobExecution
execution_written e r = record e {
  id = r.id;
  job_id = r.job_id;
  worker_id = r.worker_id;
  attempt = r.attempt;
  started_at = r.started_at;
}

unfoldable pub update_execution : JobExecution → Exec LogDb (Unit {0})
unfolding is_execution_status
update_execution e = sql (λ d.
    if any_row (execution_has_id e.id) d.executions && not (is_execution_status e.status)
    then (err (pg refused), d)
    else (
      ok tt,
      record d {
        executions = update_rows (execution_has_id e.id) (execution_written e) d.executions;
      },
    ))

unfoldable pub list_executions : ℕ → Exec LogDb (List JobExecution)
list_executions job_id = query (λ d. ok (
    sort_rows (λ a b. leb_ℤ a.attempt b.attempt)
      (where_rows (λ (e : JobExecution). e.job_id == job_id) d.executions)))

-- The job of a log line is not a column.
abbrev pub stored : ExecutionLog → ExecutionLog
stored l = record l { job_id = 0 }

unfoldable pub insert_log : ExecutionLog → LogDb → Result (Unit {0}) × LogDb
unfolding is_log_level
insert_log l d =
    if not (is_log_level l.level)
    then (err (pg refused), d)
    else if any_row (λ (o : ExecutionLog). o.id == l.id) d.logs
    then (err (pg unique_violation), d)
    else if not (any_row (execution_has_id l.execution_id) d.executions)
    then (err (pg foreign_key_violation), d)
    else (ok tt, record d { logs = d.logs ++ stored l ∷ [] })

-- One INSERT for each line; the loop ends at the first error.
unfoldable pub add_logs : List ExecutionLog → Exec LogDb (Unit {0})
unfolding insert_log
add_logs [] = pure tt
add_logs (l ∷ ls) = do sql (insert_log l); add_logs ls

abbrev by_time : List ExecutionLog → List ExecutionLog
by_time = sort_rows (λ a b. leb a.logged_at b.logged_at)

unfoldable pub list_logs_by_execution : ℕ → Exec LogDb (List ExecutionLog)
list_logs_by_execution i =
    query (λ d. ok (by_time (where_rows (λ (l : ExecutionLog). l.execution_id == i) d.logs)))

-- JOIN job_executions.
unfoldable pub list_logs_by_job : ℕ → Exec LogDb (List ExecutionLog)
list_logs_by_job job_id = query (λ d. ok (
    by_time (
      where_rows
        (λ (l : ExecutionLog).
          any_row (λ e. execution_has_id l.execution_id e && e.job_id == job_id) d.executions)
        d.logs)))
