-- ===== src/JobService/Retry.antt =====
-- JobService.retry and JobService.cancel: from which states, and with which rows after.
use codity_assignment.Exec.{sql, World, raise, ok, ◌>>=◌, map_err, err, Result}
use codity_assignment.Base.{
  ℕ, if◌then◌else◌, not, ◌&&◌, ◌≡◌, ◌⊎◌, update_rows, arith, first_row, some, count_rows, ◌==◌, ap,
  ◌∙◌,
}
use codity_assignment.Domain.Job.{Job, ◌is◌, failed, dead, Status}
use codity_assignment.Store.{Db}
use codity_assignment.Errors.{app, conflict, GoError}
use codity_assignment.Exec.Laws.{bind-ok}
use codity_assignment.JobService.Enqueue.{job_found}
use codity_assignment.Tables.{update-none}
use codity_assignment.JobRepo
use codity_assignment.JobService
use codity_assignment.JobRepo.Updates

-- The statement of a retry of the job that was read.
retried-ok :
    (i at now : ℕ) (j : Job) (w : World Db)
    → let m =
        if not (j.status is failed) && not (j.status is dead)
        then raise (app conflict "only failed or dead jobs can be manually retried")
        else Updates.schedule_retry i at j.attempt_count now in
      (m w).0 ≡ ok tt
      → ((j.status ≡ Status.failed) ⊎ (j.status ≡ Status.dead))
        × ((m w).1.db ≡ record w.db {
          jobs = update_rows (JobRepo.has_id i) (Updates.to_retry at j.attempt_count now) w.db.jobs;
        })
unfolding sql Updates.schedule_retry
retried-ok i at now j w h = ground arith

-- A manual retry that succeeds was of a failed or a dead job; the job is pending from the given
-- time on, unclaimed, with the attempts it had, and every other row is as it was.
pub retry-ok :
    (i at now : ℕ) (w : World Db)
    → (JobService.retry i at now w).0 ≡ ok tt
    → (j : Job) × (first_row (JobRepo.has_id i) w.db.jobs ≡ some j)
      × ((j.status ≡ Status.failed) ⊎ (j.status ≡ Status.dead))
      × ((JobService.retry i at now w).1.db ≡ record w.db {
        jobs = update_rows (JobRepo.has_id i) (Updates.to_retry at j.attempt_count now) w.db.jobs;
      })
unfolding JobService.retry
retry-ok i at now w h =
    let (j, got, e, h2) = bind-ok (JobRepo.get_by_id i) _ w h in
    let (found, same) = job_found i j w got in
    let (from, after) = retried-ok i at now j (JobRepo.get_by_id i w).1 h2 in
    (
      j,
      found,
      from,
      ap (λ (x : Result (Unit {0}) × World Db). x.1.db) e
          ∙ after
          ∙ ap
              (λ (d : Db). record d {
                jobs =
                    update_rows (JobRepo.has_id i) (Updates.to_retry at j.attempt_count now) d.jobs;
              })
              same,
    )

-- A cancellation that succeeds was of a job that waits, which is then cancelled; every other row
-- is as it was.
pub cancel-ok :
    (i now : ℕ) (w : World Db)
    → (JobService.cancel i now w).0 ≡ ok tt
    → (¬ (count_rows (λ j. j.id == i && Updates.is_waiting j.status) w.db.jobs ≡ 0))
      × ((JobService.cancel i now w).1.db ≡ record w.db {
        jobs =
            update_rows
              (λ j. j.id == i && Updates.is_waiting j.status)
              (λ j. record j { status = Status.cancelled; updated_at = now })
              w.db.jobs;
      })
unfolding JobService.cancel Updates.cancel ◌>>=◌ map_err sql
cancel-ok i now w h = ground arith

-- A cancellation that fails has changed nothing.
pub cancel-err :
    (i now : ℕ) (w : World Db) (e : GoError)
    → (JobService.cancel i now w).0 ≡ err e
    → (JobService.cancel i now w).1.db.jobs ≡ w.db.jobs
unfolding JobService.cancel Updates.cancel ◌>>=◌ map_err sql
cancel-err i now w e h = ground (
  arith,
  update-none (λ j. j.id == i && Updates.is_waiting j.status)
      (λ j. record j { status = Status.cancelled; updated_at = now }) w.db.jobs,
)
