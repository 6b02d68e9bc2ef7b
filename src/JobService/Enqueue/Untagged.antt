-- ===== src/JobService/Enqueue/Untagged.antt =====
-- JobService.enqueue on a request without tags, whose nil slice is written as NULL.
use codity_assignment.Base.{ℕ, ◌≡◌, none, false, ◌⊎◌, inl, inr, refl}
use codity_assignment.JobService.{EnqueueRequest, enqueue, JobResponse, new_job}
use codity_assignment.JobService.Enqueue.{Reused, enqueue-ok, enqueue-err}
use codity_assignment.Domain.Queue.{Queue}
use codity_assignment.Errors.{GoError}
use codity_assignment.Exec.{Result, World, ok, err}
use codity_assignment.Store.{Db}
use codity_assignment.JobRepo

null_tags :
    (i queue_id : ℕ) (req : EnqueueRequest) (now : ℕ) (q : Queue)
    → req.tags ≡ none
    → JobRepo.columns_ok (record (new_job i q req now) { queue_id = queue_id }) ≡ false
unfolding JobRepo.columns_ok new_job
null_tags i queue_id req now q h = rw h refl

-- A request without tags never adds a job: it fails and changes nothing, or it is answered with the
-- job that has its key.
pub enqueue_untagged :
    (i queue_id : ℕ) (req : EnqueueRequest) (now : ℕ) (w : World Db)
    → req.tags ≡ none
    → let done = enqueue i queue_id req now w in
      ((e : GoError) × ((done.0 ≡ err e) × (done.1.db ≡ w.db)))
      ⊎ ((r : JobResponse) × ((done.0 ≡ ok r) × Reused i queue_id req now w.db done.1.db r))
enqueue_untagged i queue_id req now w h = by_result (enqueue i queue_id req now w).0 refl
  where
    by_result :
        (a : Result JobResponse)
        → (enqueue i queue_id req now w).0 ≡ a
        → let done = enqueue i queue_id req now w in
          ((e : GoError) × ((done.0 ≡ err e) × (done.1.db ≡ w.db)))
          ⊎ ((r : JobResponse) × ((done.0 ≡ ok r) × Reused i queue_id req now w.db done.1.db r))
    by_result (err e) same = inl (e, (same, enqueue-err i queue_id req now w e same))
    by_result (ok r) same = elim (enqueue-ok i queue_id req now w r same) [
      | inr reused ↦ inr (r, (same, reused))
      | inl (q, found, open_queue, (shown, (allowed, ways))) ↦
          let refused = null_tags i queue_id req now q h in absurd (cc)
    ]
