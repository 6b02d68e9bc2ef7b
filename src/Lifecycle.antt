-- ===== src/Lifecycle.antt =====
-- The life of a job, as backend/internal/domain/job/job.go names its states: the moves that a status
-- may make, and the operations of repository/postgres/job.go that make them, in any order.
pub mod Steps
pub mod Runs
pub mod Refined
use codity_assignment.Store.{Db}
use codity_assignment.JobRepo.Claim.{claim_batch}
use codity_assignment.Domain.Job.{
  Status, pending, Job, running, succeeded, dead, ◌is◌, scheduled, cancelled,
}
use codity_assignment.Base.{
  ℕ, Option, ℤ, Bool, ◌≡◌, false, true, first_row, String, some, none, ◌⊎◌,
}
use codity_assignment.Exec.{World}
use codity_assignment.JobRepo.Updates.{
  mark_succeeded, mark_dead, schedule_retry, promote_scheduled, reclaim_stale,
}
use codity_assignment.JobRepo.{has_id}
use codity_assignment.JobRepo.Updates

-- The moves of a status: a claim, the three outcomes of an execution, a reclaim (the same move as a
-- retry), a promotion, and the cancellations.
pub data Move : Status → Status → Type 0 where
  claimed : Move pending running
  completed : Move running succeeded
  buried : Move running dead
  returned : Move running pending
  promoted : Move scheduled pending
  cancelled_pending : Move pending cancelled
  cancelled_scheduled : Move scheduled cancelled

-- Any number of moves.
pub data Life : Status → Status → Type 0 where
  stays : {s : Status} → Life s s
  moves : {s t u : Status} → Move s t → Life t u → Life s u

-- The operations on the jobs that are there, with their arguments.
pub data Op : Type 0 where
  claim : (q worker : ℕ) (batch_size limit : ℤ) (locked : ℕ → Bool) (now : ℕ) → Op
  succeed : (i at now : ℕ) → Op
  bury : (i : ℕ) (msg : String) (at now : ℕ) → Op
  retry : (i run_at attempts now : ℕ) → Op
  cancel : (i now : ℕ) → Op
  promote : (now : ℕ) → Op
  reclaim : (visibility_timeout now : ℕ) → Op

-- An operation, whatever it returns. (The Retry of the job service, which revives a job, is not one.)
unfoldable pub perform : Op → World Db → World Db
unfolding claim_batch mark_succeeded mark_dead schedule_retry Updates.cancel promote_scheduled
    reclaim_stale
perform (claim q worker batch_size limit locked now) w =
    (claim_batch q worker batch_size limit locked now w).1
perform (succeed i at now) w = (mark_succeeded i at now w).1
perform (bury i msg at now) w = (mark_dead i msg at now w).1
perform (retry i run_at attempts now) w = (schedule_retry i run_at attempts now w).1
perform (cancel i now) w = (Updates.cancel i now w).1
perform (promote now) w = (promote_scheduled now w).1
perform (reclaim visibility_timeout now) w = (reclaim_stale visibility_timeout now w).1

-- What an operation may do to the status of the job with an id: the one move that is its purpose,
-- and where it names a job, of that job only.
abbrev pub Does : Op → ℕ → Status → Status → Type 0
Does (claim q worker batch_size limit locked now) k s t = (s ≡ pending) × (t ≡ running)
Does (succeed i at now) k s t = (k ≡ i) × (s ≡ running) × (t ≡ succeeded)
Does (bury i msg at now) k s t = (k ≡ i) × (s ≡ running) × (t ≡ dead)
Does (retry i run_at attempts now) k s t = (k ≡ i) × (s ≡ running) × (t ≡ pending)
Does (cancel i now) k s t = (k ≡ i) × ((s ≡ pending) ⊎ (s ≡ scheduled)) × (t ≡ cancelled)
Does (promote now) k s t = (s ≡ scheduled) × (t ≡ pending)
Does (reclaim visibility_timeout now) k s t = (s ≡ running) × (t ≡ pending)

abbrev pub runs : Option Job → Bool
runs none = false
runs (some j) = j.status is running

-- The outcome of an execution is written while the job is still running, which the statements do not
-- test themselves.
abbrev pub fenced : Op → Db → Bool
fenced (succeed i at now) d = runs (first_row (has_id i) d.jobs)
fenced (bury i msg at now) d = runs (first_row (has_id i) d.jobs)
fenced (retry i run_at attempts now) d = runs (first_row (has_id i) d.jobs)
fenced _ d = true

-- A run of operations, each outcome of which is fenced.
pub data History : World Db → World Db → Type 0 where
  done : {w : World Db} → History w w
  step : {w v : World Db} (o : Op) → fenced o w.db ≡ true → History (perform o w) v → History w v
