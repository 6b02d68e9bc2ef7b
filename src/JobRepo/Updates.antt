-- ===== src/JobRepo/Updates.antt =====
-- The updates of backend/internal/repository/postgres/job.go. An update by id that finds no row is
-- no error, but for Cancel.
use codity_assignment.Domain.Job.{
  Status, Job, failed, succeeded, ◌is◌, scheduled, cancelled, dead, running, pending,
}
use codity_assignment.Base.{
  Option, ℕ, String, Bool, some, ◌+◌, false, ◌/◌, update_rows, ◌&&◌, ltb, leb, ◌*◌, count_rows,
  if◌then◌else◌, ◌==◌, none, ◌||◌,
}
use codity_assignment.Exec.{Exec, map_err, sql, ◌>>=◌, ok, raise, pure}
use codity_assignment.Store.{Db}
use codity_assignment.JobRepo.{has_id}
use codity_assignment.Retry.{second}
use codity_assignment.Errors.{wrapf, app, conflict}

abbrev pub change : (Job → Bool) → (Job → Job) → Db → Db
change p f d = record d { jobs = update_rows p f d.jobs }

abbrev set_by_id : ℕ → (Job → Job) → Exec Db (Unit {0})
set_by_id i f = sql (λ d. (ok tt, change (has_id i) f d))

unfoldable pub update_status : ℕ → Status → ℕ → Exec Db (Unit {0})
update_status i s now = set_by_id i (λ j. record j { status = s; updated_at = now })

abbrev pub to_succeeded : ℕ → ℕ → Job → Job
to_succeeded at now j = record j { status = succeeded; completed_at = some at; updated_at = now }

unfoldable pub mark_succeeded : ℕ → ℕ → ℕ → Exec Db (Unit {0})
mark_succeeded i at now = set_by_id i (to_succeeded at now)

abbrev pub to_failed : String → ℕ → ℕ → Job → Job
to_failed msg at now j = record j {
  status = failed;
  attempt_count = j.attempt_count + 1;
  last_error = some msg;
  last_error_at = some at;
  updated_at = now;
}

unfoldable pub mark_failed : ℕ → String → ℕ → ℕ → Exec Db (Unit {0})
mark_failed i msg at now = set_by_id i (to_failed msg at now)

abbrev pub to_dead : String → ℕ → ℕ → Job → Job
to_dead msg at now j = record j {
  status = dead;
  attempt_count = j.attempt_count + 1;
  last_error = some msg;
  last_error_at = some at;
  completed_at = some at;
  updated_at = now;
}

unfoldable pub mark_dead : ℕ → String → ℕ → ℕ → Exec Db (Unit {0})
mark_dead i msg at now = set_by_id i (to_dead msg at now)

abbrev pub to_retry : ℕ → ℕ → ℕ → Job → Job
to_retry run_at attempts now j = record j {
  status = pending;
  run_at = run_at;
  attempt_count = attempts;
  claimed_by = none;
  claimed_at = none;
  updated_at = now;
}

unfoldable pub schedule_retry : ℕ → ℕ → ℕ → ℕ → Exec Db (Unit {0})
schedule_retry i run_at attempts now = set_by_id i (to_retry run_at attempts now)

abbrev pub is_waiting : Status → Bool
is_waiting s = s is pending || s is scheduled

abbrev cancellable : ℕ → Job → Bool
cancellable i j = has_id i j && is_waiting j.status

unfoldable pub cancel : ℕ → ℕ → Exec Db (Unit {0})
cancel i now = do
  count ← map_err (wrapf "cancel job") (
      sql (λ d. (
        ok (count_rows (cancellable i) d.jobs),
        change (cancellable i) (λ j. record j { status = cancelled; updated_at = now }) d,
      )))
  if count == 0
      then raise (app conflict "job cannot be cancelled in its current state")
      else pure tt

abbrev pub is_due : ℕ → Job → Bool
is_due now j = j.status is scheduled && leb j.run_at now

-- The number of rows is the result.
unfoldable pub promote_scheduled : ℕ → Exec Db ℕ
promote_scheduled now = map_err (wrapf "promote scheduled") (
    sql (λ d. (
      ok (count_rows (is_due now) d.jobs),
      change (is_due now) (λ j. record j { status = pending; updated_at = now }) d,
    )))

-- `claimed_at < NOW() - secs`, where NULL is never less.
abbrev pub claimed_before : Option ℕ → ℕ → ℕ → Bool
claimed_before none secs now = false
claimed_before (some t) secs now = ltb (t + secs * second) now

abbrev pub is_stale : ℕ → ℕ → Job → Bool
is_stale secs now j = j.status is running && claimed_before j.claimed_at secs now

abbrev pub to_reclaimed : ℕ → Job → Job
to_reclaimed now j = record j {
  status = pending;
  claimed_by = none;
  claimed_at = none;
  updated_at = now;
}

-- `int(visibilityTimeout.Seconds())`: whole seconds.
unfoldable pub reclaim_stale : ℕ → ℕ → Exec Db ℕ
reclaim_stale visibility_timeout now =
    let secs = visibility_timeout / second in
    map_err (wrapf "reclaim stale") (
      sql (λ d. (
        ok (count_rows (is_stale secs now) d.jobs),
        change (is_stale secs now) (to_reclaimed now) d,
      )))
