-- ===== src/Worker/Dispatcher.antt =====
-- backend/internal/worker/dispatcher.go. The pool runs beside the dispatcher: a reading of
-- `AvailableWorkers` is an argument. The result is the jobs that are submitted, in order.
pub mod Sound
pub mod Active
use codity_assignment.Base.{
  ℕ, String, ℤ, if◌then◌else◌, List, Bool, ltb_ℤ, leb_ℤ, [], ◌∷◌, pos, suc, ◌++◌,
}
use codity_assignment.Exec.{Result, Exec, ok, pure, ◌>>=◌, err, attempt}
use codity_assignment.Domain.Job.{Job}
use codity_assignment.Domain.Queue.{Queue}
use codity_assignment.Store.{Db}
use codity_assignment.JobRepo.Claim.{claim_batch}
use codity_assignment.QueueRepo.{list_active_prioritized}

-- `claimSize`.
unfoldable pub dispatch_size : ℤ → ℤ → ℤ
dispatch_size batch_size available = if ltb_ℤ available batch_size then available else batch_size

-- An error of the claim is logged, and nothing is submitted.
abbrev pub claimed_jobs : Result (List Job) → List Job
claimed_jobs (ok js) = js
claimed_jobs (err e) = []

unfoldable pub claim_for : ℕ → (ℕ → Bool) → ℕ → Queue → ℤ → Exec Db (List Job)
claim_for worker locked now q size = do
  claimed ← attempt (claim_batch q.id worker size q.concurrency locked now)
  pure (claimed_jobs claimed)

unfoldable pub dispatch_queue : ℕ → ℤ → (ℕ → Bool) → ℕ → Queue → ℤ → Exec Db (List Job)
unfolding dispatch_size claim_for
dispatch_queue worker batch_size locked now q available =
    if leb_ℤ available (pos 0)
    then pure []
    else claim_for worker locked now q (dispatch_size batch_size available)

-- The two readings for the n-th queue: of the test of the loop, and of `dispatchQueue`.
unfoldable pub dispatch_each :
    ℕ → ℤ → (ℕ → Bool) → ℕ → (ℕ → ℤ × ℤ) → ℕ → List Queue → Exec Db (List Job)
unfolding dispatch_queue
dispatch_each worker batch_size locked now readings n [] = pure []
dispatch_each worker batch_size locked now readings n (q ∷ qs) =
    let rest = dispatch_each worker batch_size locked now readings (suc n) qs in
    if leb_ℤ (readings n).0 (pos 0) then pure [] else (do
      js ← dispatch_queue worker batch_size locked now q (readings n).1
      more ← rest
      pure (js ++ more))

-- `dispatchAll`: an error of the list of the queues is logged.
abbrev pub queues_or_none : Result (List Queue) → List Queue
queues_or_none (ok qs) = qs
queues_or_none (err e) = []

unfoldable pub dispatch_all :
    (String → String → Bool) → ℕ → ℤ → (ℕ → Bool) → ℕ → (ℕ → ℤ × ℤ) → Exec Db (List Job)
unfolding dispatch_each
dispatch_all before worker batch_size locked now readings = do
  queues ← attempt (list_active_prioritized before)
  dispatch_each worker batch_size locked now readings 0 (queues_or_none queues)
