-- ===== src/Examples/Claims.antt =====
-- The theorems on claims at the tables of the examples.
use mathlib.Core.List.{Memᴰ}
use codity_assignment.Exec.{World, Result, transaction, query, sql, map_err, ◌>>=◌, ◌>>◌}
use codity_assignment.Base.{
  count_rows, ℕ, Bool, elem, false, List, ◌⊎◌, All, pos, ◌≡◌, length, where_rows, sort_rows,
  insert_sorted, any_row, first_row, update_rows, ◌-ℤ◌, ◌≤ℤ◌, ◌∷◌, [], refl, arith, ◌≤◌, ◌<ℤ◌,
}
use codity_assignment.Examples.{email_job, tables, world, urgent_job, mail_queue}
use codity_assignment.Store.{Db}
use codity_assignment.JobRepo.Claim.{
  select_claim, claim_batch, claim_rows, claim_within, claim_some, claims_before, claim_size,
  run_claim, mark_claimed, runs_in,
}
use codity_assignment.Domain.Job.{Job, Status}
use codity_assignment.JobRepo.Claim.Order.{select_claim-first}
use codity_assignment.JobRepo.Claim.Effect.{ids_of}
use codity_assignment.Worker.Dispatcher.{dispatch_queue, dispatch_size, claim_for}
use codity_assignment.Worker.Dispatcher.Sound.{dispatch_queue-fits}
use codity_assignment.JobRepo.Claim.Limit.{claim_batch_limit}
use codity_assignment.JobRepo.Claim.Sound.{claim_batch_disjoint}

abbrev nobody : ℕ → Bool
nobody i = false

abbrev claim : World Db → Result (List Job) × World Db
claim = claim_batch 1 50 (pos 5) (pos 2) nobody 200

claim_batch_limit_example :
    (pos (count_rows (runs_in 1) (claim world).1.db.jobs) ≤ℤ pos 2)
    × ((pos (length (urgent_job ∷ [])) ≤ℤ pos 5) ⊎ ((urgent_job ∷ []) ≡ []))
unfolding count_rows elem claim_batch claim_rows claim_within claim_some claim_size run_claim
    select_claim mark_claimed transaction query sql map_err ◌>>=◌ ◌>>◌ where_rows sort_rows
    insert_sorted claims_before any_row first_row update_rows ◌-ℤ◌
claim_batch_limit_example =
    claim_batch_limit 1 50 (pos 5) (pos 2) nobody 200 world (urgent_job ∷ [])
      (refl, (refl, (refl, (refl, tt)))) (omega arith) refl

claim_batch_disjoint_example :
    All (λ k. elem k.id (ids_of (urgent_job ∷ [])) ≡ false) (email_job ∷ [])
unfolding count_rows elem claim_batch claim_rows claim_within claim_some claim_size run_claim
    select_claim mark_claimed transaction query sql map_err ◌>>=◌ ◌>>◌ where_rows sort_rows
    insert_sorted claims_before any_row first_row update_rows ◌-ℤ◌
claim_batch_disjoint_example =
    claim_batch_disjoint 1 50 (pos 5) (pos 2) nobody 200 world (urgent_job ∷ []) 1 51 (pos 5)
      (pos 9) nobody 300 (email_job ∷ []) refl refl

select_claim-first_example :
    let selected = select_claim 1 200 nobody 1 tables in
    All
      (λ (k : Job).
        (k.queue_id ≡ 1) × (k.status ≡ Status.pending) × (k.run_at ≤ 200) × (nobody k.id ≡ false))
      selected
    × (Memᴰ email_job selected
        ⊎ (All
              (λ (k : Job). (pos 5 <ℤ k.priority) ⊎ ((k.priority ≡ pos 5) × (k.run_at ≤ 100)))
              selected
            × (length selected ≡ 1)))
select_claim-first_example =
    select_claim-first 1 200 nobody 1 tables email_job (Memᴰ.head refl) refl refl (omega arith) refl

dispatch_queue-fits_example :
    ((pos (length (urgent_job ∷ [])) ≤ℤ pos 3) × (pos (length (urgent_job ∷ [])) ≤ℤ pos 5))
    ⊎ ((urgent_job ∷ []) ≡ [])
unfolding count_rows elem claim_batch claim_rows claim_within claim_some claim_size run_claim
    select_claim mark_claimed transaction query sql map_err ◌>>=◌ ◌>>◌ where_rows sort_rows
    insert_sorted claims_before any_row first_row update_rows ◌-ℤ◌ dispatch_queue dispatch_size
    claim_for
dispatch_queue-fits_example =
    dispatch_queue-fits 50 (pos 5) nobody 200 mail_queue (pos 3) world (urgent_job ∷ []) refl
