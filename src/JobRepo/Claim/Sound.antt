-- ===== src/JobRepo/Claim/Sound.antt =====
-- What a claim that returned jobs promises to the dispatcher.
use mathlib.Core.List.{Memᴰ}
use codity_assignment.Base.{
  ℕ, ℤ, Bool, List, ◌≡◌, All, first_row, elem, true, Option, false, none, inl, some, inr,
  if◌then◌else◌, ap, subst, ◌∙◌, arith, refl,
}
use codity_assignment.Exec.{World, ok}
use codity_assignment.Store.{Db}
use codity_assignment.Domain.Job.{Job, running}
use codity_assignment.JobRepo.Claim.{claim_batch, mark_claimed, eligible, claim_row}
use codity_assignment.JobRepo.{has_id}
use codity_assignment.JobRepo.Claim.Effect.{ids_of, claim_batch-ok}
use codity_assignment.Sorting.{All-both, All-imp}
use codity_assignment.JobRepo.Claim.Order.{select_claim-mem, select_claim-eligible}
use codity_assignment.Tables.{first-update, mem-update}

module _ (q worker : ℕ) (batch_size limit : ℤ) (locked : ℕ → Bool) (now : ℕ) (w : World Db)
    (js : List Job) (claimed : (claim_batch q worker batch_size limit locked now w).0 ≡ ok js) where
  -- Every job that is returned was a row of the queue that was pending, due and not locked.
  pub claim_batch-eligible : All (λ j. Memᴰ j w.db.jobs × (eligible q now locked j ≡ true)) js
  claim_batch-eligible = elim (claim_batch-ok q worker batch_size limit locked now w js claimed).1 [
    | inl nothing ↦ rw nothing tt
    | inr (room, size, picked) ↦ rw picked (
        All-both (λ j. Memᴰ j w.db.jobs) (λ j. eligible q now locked j ≡ true) _
          (select_claim-mem q now locked _ w.db) (select_claim-eligible q now locked _ w.db))
  ]

  -- After the claim a row with one of the returned ids is running, and is claimed and started by
  -- this worker now; every other row is as it was.
  pub claim_batch-rows :
      (i : ℕ)
      → first_row (has_id i) (claim_batch q worker batch_size limit locked now w).1.db.jobs
        ≡ elim (first_row (has_id i) w.db.jobs) [
          | Option.none ↦ none
          | Option.some j ↦ some (if elem j.id (ids_of js) then claim_row worker now j else j)
        ]
  unfolding mark_claimed
  claim_batch-rows i =
      ap (λ (d : Db). first_row (has_id i) d.jobs)
        (claim_batch-ok q worker batch_size limit locked now w js claimed).0
      ∙ first-update (has_id i) (λ j. elem j.id (ids_of js)) (claim_row worker now) w.db.jobs
          (λ j. refl)

marked-running :
    (worker now : ℕ) (ids : List ℕ) (d : Db) (k : Job)
    → Memᴰ k (mark_claimed worker now ids d).jobs
    → elem k.id ids ≡ true
    → k.status ≡ running
unfolding mark_claimed
marked-running worker now ids d k =
    mem-update (λ (j : Job). elem j.id ids ≡ true → j.status ≡ running) (λ j. elem j.id ids)
      (claim_row worker now) k d.jobs (λ j h. ground arith)

-- Once a claim has returned jobs, no later claim of the resulting tables, by any worker from any
-- queue with any arguments, returns one of them.
pub claim_batch_disjoint :
    (q worker : ℕ) (batch_size limit : ℤ) (locked : ℕ → Bool) (now : ℕ) (w : World Db)
    (js : List Job) (q' worker' : ℕ) (batch_size' limit' : ℤ) (locked' : ℕ → Bool) (now' : ℕ)
    (ks : List Job)
    → (claim_batch q worker batch_size limit locked now w).0 ≡ ok js
    → (claim_batch q' worker' batch_size' limit' locked' now'
        (claim_batch q worker batch_size limit locked now w).1).0
      ≡ ok ks
    → All (λ k. elem k.id (ids_of js) ≡ false) ks
claim_batch_disjoint q worker batch_size limit locked now w js q' worker' batch_size' limit' locked'
      now' ks e e' =
    All-imp (λ k. Memᴰ k second.db.jobs × (eligible q' now' locked' k ≡ true))
      (λ k. elem k.id (ids_of js) ≡ false) ks
      (λ k (m, fits). by_test k m fits (elem k.id (ids_of js)) refl)
      (claim_batch-eligible q' worker' batch_size' limit' locked' now' second ks e')
  where
    second : World Db
    second = (claim_batch q worker batch_size limit locked now w).1

    by_test :
        (k : Job)
        → Memᴰ k second.db.jobs
        → eligible q' now' locked' k ≡ true
        → (b : Bool) → elem k.id (ids_of js) ≡ b
        → b ≡ false
    by_test k m fits false h = refl
    by_test k m fits true h =
        let marked = (claim_batch-ok q worker batch_size limit locked now w js e).0 in
        let busy =
          marked-running worker now (ids_of js) w.db k (subst (λ (d : Db). Memᴰ k d.jobs) marked m)
            h in
        ground arith
