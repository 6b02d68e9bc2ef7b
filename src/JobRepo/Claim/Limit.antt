-- ===== src/JobRepo/Claim/Limit.antt =====
-- The concurrency limit of a queue, under a claim that no other transaction overlaps.
use codity_assignment.JobRepo.Claim.{
  mark_claimed, select_claim, runs_in, claim_batch, claims_before, claim_size, eligible, claim_row,
}
use codity_assignment.Store.{Db}
use codity_assignment.Base.{
  ℕ, List, ℤ, Bool, length, count_rows, pos, ◌≤◌, ◌≤ℤ◌, ◌+◌, sort_rows, ◌≡◌, arith, where_rows,
  elem, ◌-ℤ◌, take, ◌⊎◌, [], length-take, inl, inr, ap, pos_part, -ℤ_parts, nonneg_part,
}
use codity_assignment.Tables.{Distinct, count-update-le, length-map, count_elem-le}
use codity_assignment.Exec.{World, ok}
use codity_assignment.Domain.Job.{Job}
use codity_assignment.JobRepo.Claim.Effect.{ids_of, claim_batch-ok}

abbrev pub JobsDistinct : Db → Type 0
JobsDistinct d = Distinct (λ (j : Job). j.id) d.jobs

pub select_claim-length :
    (q now : ℕ) (locked : ℕ → Bool) (n : ℕ) (d : Db)
    → length (ids_of (select_claim q now locked n d)) ≤ n
unfolding select_claim
select_claim-length q now locked n d =
    let sorted : List Job = sort_rows claims_before (where_rows (eligible q now locked) d.jobs) in
    omega (arith, length-map (λ (j : Job). j.id) (take n sorted), length-take n sorted)

mark_claimed-count :
    (q worker now : ℕ) (ids : List ℕ) (d : Db)
    → JobsDistinct d
    → count_rows (runs_in q) (mark_claimed worker now ids d).jobs
      ≤ count_rows (runs_in q) d.jobs + length ids
unfolding mark_claimed
mark_claimed-count q worker now ids d h = omega (
  arith,
  count-update-le (runs_in q) (λ j. elem j.id ids) (claim_row worker now) d.jobs,
  count_elem-le (λ (j : Job). j.id) ids d.jobs h,
)

pub claim_size-min : (a b : ℤ) → (claim_size a b ≤ℤ a) × (claim_size a b ≤ℤ b)
unfolding claim_size
claim_size-min a b = ground arith

-- A claim keeps a queue within its limit: if at most `limit` of its jobs are running before, at
-- most `limit` are running after, whatever else the table holds and however many were asked for.
-- It returns no more jobs than a batch, or none. The ids of the jobs are distinct.
pub claim_batch_limit :
    (q worker : ℕ) (batch_size limit : ℤ) (locked : ℕ → Bool) (now : ℕ) (w : World Db)
    (js : List Job)
    → JobsDistinct w.db
    → pos (count_rows (runs_in q) w.db.jobs) ≤ℤ limit
    → (claim_batch q worker batch_size limit locked now w).0 ≡ ok js
    → (pos (count_rows (runs_in q) (claim_batch q worker batch_size limit locked now w).1.db.jobs)
        ≤ℤ limit)
      × ((pos (length js) ≤ℤ batch_size) ⊎ (js ≡ []))
claim_batch_limit q worker batch_size limit locked now w js h within e =
    let (marked, chosen) = claim_batch-ok q worker batch_size limit locked now w js e in
    let few = mark_claimed-count q worker now (ids_of js) w.db h in
    let counted = length-map (λ (j : Job). j.id) js in
    rw marked (elim chosen [
      | inl nothing ↦ (omega (arith, ap length nothing, counted, few), inr nothing)
      | inr (room, size, picked) ↦
          let room_left : ℤ = limit -ℤ pos (count_rows (runs_in q) w.db.jobs) in
          let taken : ℤ = claim_size room_left batch_size in
          let short = select_claim-length q now locked (pos_part taken) w.db in
          let same = ap (λ l. length (ids_of l)) picked in
          let (below_room, below_batch) = claim_size-min room_left batch_size in
          let parts = -ℤ_parts limit (pos (count_rows (runs_in q) w.db.jobs)) in
          let whole = nonneg_part taken size in (omega arith, inl (omega arith))
    ])
