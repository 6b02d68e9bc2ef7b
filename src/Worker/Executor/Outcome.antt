-- ===== src/Worker/Executor/Outcome.antt =====
-- The row of a job after one execution, on every path of `Execute`.
use codity_assignment.Base.{
  ℕ, Option, some, str_append, none, ◌≡◌, false, true, arith, if◌then◌else◌, ltb_ℤ, pos, ◌+◌,
}
use codity_assignment.Worker.Registry.{Registry, get}
use codity_assignment.Worker.Executor.{execute, timeout_of, policy_of}
use codity_assignment.Retry.{Source, next_run_at}
use codity_assignment.JobRepo.Updates.{
  mark_dead, mark_succeeded, schedule_retry, change, to_dead, to_succeeded, to_retry,
}
use codity_assignment.Domain.Job.{Job}
use codity_assignment.Store.{Db}
use codity_assignment.Exec.{sql, ◌>>=◌, ◌>>◌, World}
use codity_assignment.JobRepo.{has_id}

-- The change that an execution writes to the row of `j`; `none` where it panics.
unfoldable pub outcome : Registry → Source → Job → ℕ → ℕ → Option (Job → Job)
outcome r s j at now = elim (get j.job_type r) [
  | Option.none ↦ some (to_dead (str_append "no handler for type: " j.job_type) at now)
  | Option.some handler ↦ elim (handler (timeout_of j) j) [
    | Option.none ↦ some (to_succeeded at now)
    | Option.some msg ↦
        if ltb_ℤ (pos (j.attempt_count + 1)) j.max_retries
        then elim (next_run_at s (policy_of j) (pos (j.attempt_count + 1)) at) [
          | Option.none ↦ none
          | Option.some run_at ↦ some (to_retry run_at (j.attempt_count + 1) now)
        ]
        else some (to_dead msg at now)
  ]
]

abbrev pub apply_outcome : ℕ → Option (Job → Job) → Db → Db
apply_outcome i none d = d
apply_outcome i (some f) d = change (has_id i) f d

-- While the database answers, an execution writes to the rows with the id of its job, and to
-- nothing else: `succeeded` if the handler returned nil; `dead` if there is no handler, or it failed
-- and the attempt was the last; else `pending` again, at the time of the backoff. The attempt is
-- counted wherever it failed. A panic of the backoff writes nothing.
pub execute-outcome :
    (r : Registry) (s : Source) (j : Job) (at now : ℕ) (w : World Db)
    → w.down w.calls ≡ false
    → (execute r s j at now w).1.db ≡ apply_outcome j.id (outcome r s j at now) w.db
unfolding execute outcome mark_dead mark_succeeded schedule_retry sql ◌>>=◌ ◌>>◌
execute-outcome r s j at now w up = ground arith

-- Where the database is down an execution changes nothing, and the job stays as it was claimed.
pub execute_down :
    (r : Registry) (s : Source) (j : Job) (at now : ℕ) (w : World Db)
    → w.down w.calls ≡ true
    → (execute r s j at now w).1.db ≡ w.db
unfolding execute mark_dead mark_succeeded schedule_retry sql ◌>>=◌ ◌>>◌
execute_down r s j at now w down = ground arith
