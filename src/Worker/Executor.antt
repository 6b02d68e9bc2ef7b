-- ===== src/Worker/Executor.antt =====
-- backend/internal/worker/executor.go. `at` is the clock of the node when the handler is done (or
-- was not found), `now` the clock of the database; errors of the repository are logged only.
pub mod Outcome
pub mod Attempts
use codity_assignment.Exec.{Exec, ◌>>◌, attempt, pure}
use codity_assignment.Domain.Job.{Job}
use codity_assignment.Retry.{Source, Policy, next_run_at, second, day}
use codity_assignment.Worker.Registry.{Registry, get}
use codity_assignment.Base.{
  ℕ, String, ℤ, if◌then◌else◌, wrap64, ltb_ℤ, pos, ◌*ℤ◌, ◌+◌, str_eq, none, some, str_append,
}
use codity_assignment.Store.{Db}
use codity_assignment.JobRepo.Updates.{mark_dead, mark_succeeded, schedule_retry}

pub data Ending : Type 0 where
  returned panicked : Ending

unfoldable pub policy_of : Job → Policy
policy_of j = record {
  max_retries = j.max_retries;
  strategy = j.retry_strategy;
  base_delay = wrap64 (j.retry_delay_sec *ℤ pos second);
  max_delay = pos day;
  jitter = str_eq j.retry_strategy "exponential";
}

-- `if err := …; err != nil { log }`.
abbrev pub ignore : Exec Db (Unit {0}) → Exec Db Ending
ignore m = do attempt m; pure returned

unfoldable pub retry : Source → Job → ℕ → ℕ → Exec Db Ending
unfolding policy_of
retry s j at now = elim (next_run_at s (policy_of j) (pos (j.attempt_count + 1)) at) [
  | none ↦ pure panicked
  | some run_at ↦ ignore (schedule_retry j.id run_at (j.attempt_count + 1) now)
]

unfoldable pub on_failure : Source → Job → String → ℕ → ℕ → Exec Db Ending
unfolding retry
on_failure s j msg at now =
    if ltb_ℤ (pos (j.attempt_count + 1)) j.max_retries
    then retry s j at now
    else ignore (mark_dead j.id msg at now)

abbrev timeout_of : Job → ℤ
timeout_of j = wrap64 (j.timeout_sec *ℤ pos second)

unfoldable pub execute : Registry → Source → Job → ℕ → ℕ → Exec Db Ending
unfolding on_failure
execute r s j at now = elim (get j.job_type r) [
  | none ↦ ignore (mark_dead j.id (str_append "no handler for type: " j.job_type) at now)
  | some handler ↦ elim (handler (timeout_of j) j) [
    | none ↦ ignore (mark_succeeded j.id at now)
    | some msg ↦ on_failure s j msg at now
  ]
]
