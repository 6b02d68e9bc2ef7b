-- ===== src/Examples/Lives.antt =====
-- The theorems on the lives of jobs and on the end of a pool at concrete runs.
use codity_assignment.Base.{
  refl, List, first_row, ◌≤◌, pos, some, [], ◌∷◌, ◌≡◌, true, ◌-◌, false, any_row, ◌+ℤ◌, ◌⊎◌,
}
use codity_assignment.Domain.Job.{Job, Status}
use codity_assignment.Lifecycle.{cancel, reclaim, perform, Life, Does}
use codity_assignment.Worker.Pool.{
  next, stop, Pool, Trace, start, Event, begin, idle, submit, received, executing, receive, close,
  fire, fire_submit, fire_receive, fire_begin, fire_close,
}
use codity_assignment.Exec.{World}
use codity_assignment.Examples.{running_job, email_job, alone, dead_job}
use codity_assignment.Worker.Pool.Stopping.{work}
use codity_assignment.Store.{Db, empty_db}
use codity_assignment.JobRepo.{has_id}
use codity_assignment.Worker.Pool.Ending.{Ends, stop-Ends}
use codity_assignment.JobRepo.Updates.{mark_succeeded}
use codity_assignment.Lifecycle.Runs.{mark_succeeded-cancelled}
use codity_assignment.Lifecycle.Refined.{perform-Does}

abbrev jobs_of : Job → World Db
jobs_of j = record { db = record empty_db { jobs = alone j }; calls = 0; down = λ n. false }

abbrev stale_job : Job
stale_job = record running_job { claimed_at = some 0 }

-- The job 12 is reclaimed and cancelled.
abbrev reclaimed : World Db
reclaimed = perform (reclaim 300 200_000_000_000_000) (jobs_of stale_job)

perform-Does_example :
    (l : Job) × ((first_row (has_id 12) reclaimed.db.jobs ≡ some l)
      × ((Status.running ≡ l.status)
          ⊎ Does (reclaim 300 200_000_000_000_000) 12 Status.running l.status))
unfolding any_row first_row
perform-Does_example =
    perform-Does (reclaim 300 200_000_000_000_000) 12 (jobs_of stale_job) stale_job (refl, tt) refl
      refl

abbrev dead_after : World Db
dead_after = perform (cancel 13 700) (jobs_of dead_job)

abbrev cancelled_job : Job
cancelled_job = record running_job { status = Status.cancelled }

mark_succeeded-cancelled_example :
    (l : Job) × ((first_row
          (has_id 12)
          (mark_succeeded 12 800 801 (jobs_of cancelled_job)).1.db.jobs
        ≡ some l)
      × (l.status ≡ Status.succeeded)
      × (¬ Life Status.cancelled l.status))
unfolding first_row
mark_succeeded-cancelled_example =
    mark_succeeded-cancelled 12 800 801 (jobs_of cancelled_job) cancelled_job refl refl refl

abbrev half : List Event
half = submit email_job ∷ receive 1 ∷ close ∷ []

abbrev closed_pool : Pool
closed_pool = record {
  concurrency = 2;
  channel = [];
  closed = true;
  active = pos 0;
  workers = idle ∷ received email_job ∷ [];
  executed = [];
}

abbrev begun_pool : Pool
begun_pool = record closed_pool { active = pos 1; workers = idle ∷ executing email_job ∷ [] }

half-Trace : Trace (start 2) half closed_pool
unfolding start fire fire_submit fire_receive fire_close
half-Trace = next (submit email_job) refl (next (receive 1) refl (next close refl stop))

begun-Trace : Trace closed_pool (begin 1 ∷ []) begun_pool
unfolding fire ◌+ℤ◌ fire_begin
begun-Trace = next (begin 1) refl stop

stop-Ends_example : (1 ≤ work closed_pool) × Ends (work closed_pool - 1) begun_pool
stop-Ends_example =
    stop-Ends 2 half (begin 1 ∷ []) closed_pool begun_pool half-Trace refl begun-Trace (refl, tt)
