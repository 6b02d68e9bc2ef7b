-- ===== src/Worker/Dispatcher/Sound.antt =====
-- What a tick of the dispatcher submits: no more than it read to be free, and only jobs of queues
-- that are not paused.
use codity_assignment.Worker.Dispatcher.{dispatch_size, claim_for, dispatch_queue, claimed_jobs}
use codity_assignment.Base.{
  ℕ, ℤ, pos, Bool, ◌≤ℤ◌, arith, List, ◌≡◌, length, [], ◌⊎◌, if◌then◌else◌, inl, inr, ◌-ℤ◌, leb_ℤ,
  count_rows, pos_part, ap, nonneg_part,
}
use codity_assignment.Exec.{◌>>=◌, World, ok, Result, pure, err}
use codity_assignment.Domain.Queue.{Queue}
use codity_assignment.Store.{Db}
use codity_assignment.Domain.Job.{Job}
use codity_assignment.JobRepo.Claim.{claim_batch, runs_in, claim_size}
use codity_assignment.JobRepo.Claim.Effect.{claim_batch-ok, ids_of}
use codity_assignment.JobRepo.Claim.Limit.{select_claim-length, claim_size-min}
use codity_assignment.Tables.{length-map}

claim_batch-length :
    (q worker : ℕ) (batch_size limit : ℤ) (locked : ℕ → Bool) (now : ℕ) (w : World Db)
    (js : List Job)
    → (claim_batch q worker batch_size limit locked now w).0 ≡ ok js
    → (pos (length js) ≤ℤ batch_size) ⊎ (js ≡ [])
claim_batch-length q worker batch_size limit locked now w js e =
    elim (claim_batch-ok q worker batch_size limit locked now w js e).1 [
      | inl nothing ↦ inr nothing
      | inr (room, size, picked) ↦
          let room_left : ℤ = limit -ℤ pos (count_rows (runs_in q) w.db.jobs) in
          let taken : ℤ = claim_size room_left batch_size in
          let short = select_claim-length q now locked (pos_part taken) w.db in
          let same = ap (λ l. length (ids_of l)) picked in
          let counted = length-map (λ (j : Job). j.id) js in
          let (below_room, below_batch) = claim_size-min room_left batch_size in
          let whole = nonneg_part taken size in inl (omega arith)
    ]

dispatch_size-min : (a b : ℤ) (n : ℕ) → pos n ≤ℤ dispatch_size a b → (pos n ≤ℤ b) × (pos n ≤ℤ a)
unfolding dispatch_size
dispatch_size-min a b n h = ground arith

-- What `claim_for` returns, it has claimed, or it is nothing.
pub claim_for-ok :
    (worker : ℕ) (locked : ℕ → Bool) (now : ℕ) (q : Queue) (size : ℤ) (w : World Db) (js : List Job)
    → (claim_for worker locked now q size w).0 ≡ ok js
    → (js ≡ []) ⊎ ((claim_batch q.id worker size q.concurrency locked now w).0 ≡ ok js)
unfolding claim_for ◌>>=◌
claim_for-ok worker locked now q size w js h =
    by_result (claim_batch q.id worker size q.concurrency locked now w).0 h
  where
    by_result : (r : Result (List Job)) → ok (claimed_jobs r) ≡ ok js → (js ≡ []) ⊎ (r ≡ ok js)
    by_result (ok ks) h = inr h
    by_result (err e) h = inl cc

-- The jobs that are submitted for one queue are at most as many as workers were read to be
-- available, and at most the size of a batch.
pub dispatch_queue-fits :
    (worker : ℕ) (batch_size : ℤ) (locked : ℕ → Bool) (now : ℕ) (q : Queue) (available : ℤ)
    (w : World Db) (js : List Job)
    → (dispatch_queue worker batch_size locked now q available w).0 ≡ ok js
    → ((pos (length js) ≤ℤ available) × (pos (length js) ≤ℤ batch_size)) ⊎ (js ≡ [])
unfolding dispatch_queue
dispatch_queue-fits worker batch_size locked now q available w js h =
    by_test (leb_ℤ available (pos 0)) h
  where
    by_test :
        (b : Bool)
        → ((if b
              then pure []
              else claim_for worker locked now q (dispatch_size batch_size available))
            w).0
          ≡ ok js
        → ((pos (length js) ≤ℤ available) × (pos (length js) ≤ℤ batch_size)) ⊎ (js ≡ [])
    by_test Bool.true h = inr cc
    by_test Bool.false h =
        elim (claim_for-ok worker locked now q (dispatch_size batch_size available) w js h) [
          | inl e ↦ inr e
          | inr e ↦
              elim (claim_batch-length q.id worker (dispatch_size batch_size available)
                q.concurrency locked now w js e) [
                  | inl le ↦ inl (dispatch_size-min batch_size available (length js) le)
                  | inr e ↦ inr e
                ]
        ]
